-- ===== src/Lib.antt =====
-- The software of the EVR card G2: the boot PROM loader, the register blocks of the receiver, the
-- kernel driver, the virtual cable server, and the programs that set up and test the card.
--
-- The parts and how they interact. McsRead (software/PromLoader/McsRead.cpp and .h) reads an .mcs
-- file, which is Intel hex, and hands out one byte with its address at each call of `read`.
-- EvrCardG2Prom (software/PromLoader/EvrCardG2Prom.cpp and .h) erases the card's boot PROM, writes
-- the bytes of such a file to it, and compares them, through seven registers that lie behind an
-- mmap. The programs PromLoad, PromVerify and PromVersion (software/PromLoader/PromLoad.cpp,
-- PromVerify.cpp and PromVersion.cpp) call it and turn its answers into an exit status. The
-- register blocks of the timing receiver (software/app/tpr.hh and tpr.cc) are set up through the
-- same kind of registers. The kernel driver (software/kernel/tpr.c and tpr.h) gives each client of a
-- channel a share, takes the messages of the card out of its receive buffers into queues that the
-- clients map, and wakes the clients. The virtual cable server (software/app/tprxvc.cc) shifts the
-- bits that a client sends through the card's JTAG registers. The other programs of software/app
-- parse their options with getopt, map the registers of the card, and set it up or test it:
-- evgasync sends event codes, tprtrig sets up triggers and prints a status, tprtest tests the link,
-- the rates and the queues of the driver, which it reads as a client does, tprtool and setupdma set
-- up and dump, tprloopb tests a loop back, and evrlock moves the receiver's clock in a loop.
--
-- Base: shared names; Base/Outcome is a result with the faults of the code (an index that
-- string::at refuses, and a read of a variable that was never written); Base/Run is such a result
-- behind fuel; Base/Bits and Base/Bits/Digits have the laws of the bitwise operations; Base/Lists
-- has list operations.
-- Bus: a parameter for the registers of the card: a store, a load and a sleep.
-- Mcs/Stream: what McsRead uses of std::ifstream. Mcs/Hex: sscanf with "%x" on two characters.
-- Mcs/Reader: the state of McsRead, `open`, `beg` and `next`, one definition for each case of its
-- switch. Mcs/Read: `read`, `startAddr`, `endAddr` and `addrSize`. Mcs/Took: what a return of
-- `next` took. Mcs/Progress, Mcs/Invariant, Mcs/Loaded and Mcs/Delivery: the loops and the
-- invariant. Mcs/Encode and Mcs/Accept: a record as it is printed, and its way through the parser;
-- Mcs/RoundTrip, Mcs/Queue, Mcs/Records and Mcs/Hands: records, the queue of bytes that they leave,
-- and the calls of `read` that hand these out.
-- Prom/Registers: offsets and request words. Prom/Flash: flash cycles, and commands that poll.
-- Prom/Program: the buffered program command. Prom/Card: the object, its constructor, the version
-- check and the erase. Prom/Boot: `bufferedWriteBootProm` and `verifyBootProm`. Prom/Load: the
-- programs and their `main`. Prom/Cycles, Prom/Erase, Prom/Padding, Prom/Verify, Prom/Success and
-- Prom/Exit: theorems on these.
-- Regs/Layout: the structs of tpr.hh and the offsets of their fields. Regs/Word: one bit of a
-- word. Regs/Version: the build stamp. Regs/Core: TprCore. Regs/Blocks: the other blocks. Regs/Clock:
-- ClockManager. Regs/Apart, Regs/Settings, Regs/Setup and Regs/Select: theorems on these.
-- Driver/Device: the structs of tpr.h. Driver/Registers: offsets. Driver/Files: tpr_open and
-- tpr_release. Driver/Calls: tpr_read, tpr_poll, tpr_mmap and tpr_intr. Driver/Probe: tpr_probe and
-- tpr_remove. Driver/Queues, Driver/Messages and Driver/Dma: tpr_handle_dma, from one message to the
-- whole. Driver/Links, Driver/Lists and its children, Driver/Minors: linked lists and what they
-- stand for. Driver/Opening, Driver/Sessions, Driver/Closing, Driver/Releases, Driver/Fresh,
-- Driver/Reach and Driver/Race: theorems on opens and releases. Driver/Rings, Driver/Events,
-- Driver/Reader, Driver/Delivery, Driver/Scanning, Driver/Waking, Driver/Handling: theorems on the
-- bottom half. Driver/Reading: a read after a wake-up.
-- Driver/Removal: the registers after tpr_remove.
-- Xvc/Socket: a connection, and sread. Xvc/Shift: the loop over the bits. Xvc/Serve: handle_data.
-- Xvc/Clients: the loop of main over the connections. Xvc/Main: its options and its way there.
-- Xvc/Clocks, Xvc/Overflow, Xvc/Finite, Xvc/Ends and Xvc/Watched: theorems on these.
-- Text/Codes: a string as its bytes. Text/Numbers: strtoul with base 0. Text/Decimal: "%u".
-- Apps/Options: the loop over getopt's answers, the device, and how a program ends. Apps/Dumps: the
-- dump functions of software/app/tpr.cc, as the registers they load. Apps/Frames: the frames that
-- RingB::dumpFrames finds in a ring. Apps/Reals: a parameter for
-- float arithmetic and strtod. Apps/Evg/Registers, Apps/Evg/Codes and Apps/Evg/Main:
-- software/app/evgasync.hh and evgasync.cc. Apps/Trig/Config, Apps/Trig/Rate, Apps/Trig/Trigger,
-- Apps/Trig/Choice and Apps/Trig/Main: software/app/tprtrig.cc; Apps/Trig/Refusal: theorems on its
-- options. Apps/Check: software/app/tprtest.cc, with the link in Link, the rates in Rates, the
-- messages in Frames, the client of the queues in Capture, the triggers in Triggers and the options
-- in Main; its other modules are theorems: Judged on the rates, Settled on the link, and Pulses,
-- Client and Pipeline on the way from a message of the driver to a line of the client. Apps/Tool:
-- software/app/tprtool.cc and setupdma.cc. Apps/Loopback: software/app/tprloopb.cc.
-- Apps/Lock/Registers, Apps/Lock/Monitor and Apps/Lock/Main: software/app/evrlock.cc.
-- The modules named Tests run the definitions on small files and cards.
--
-- An open and a release are single steps in the theorems on the lists; Driver/Race takes an open
-- apart where it gives up the lock. Pointers to shares are indices; an array is a function of its
-- index. What the kernel and the hardware do (memory, mappings, sleeps, the clock) is a parameter.
-- The same holds for the answers of getopt, for whether a device or a file can be opened and
-- mapped, for float arithmetic, and, in Apps/Check, for the queues that the driver changes while
-- its client runs: they are a function of the time, which goes on by one with each look at them.
--
-- Numbers are natural numbers with the wrap-around of the source's types written out. A byte or a
-- word of an array is an option, `none` where the source never wrote one. A file is its bytes.
--
-- Fuel. A loop of McsRead takes one round of fuel for each record; more fuel than the file has
-- bytes is enough for `read`. The loops over the file in Prom/Boot take one round for each byte;
-- the erase takes one for each block; a polling loop takes one for each poll, and how many a flash
-- needs is not known, so its theorems say when it returns. The loop over the messages of a receive
-- buffer takes one round for each message; two more than the words that are left are enough. The
-- loop that wakes a list takes one for each share. A read of the virtual cable server takes one
-- round for each byte at most, its shift loop one for each byte, handle_data one for each command,
-- for which more than the bytes that the client will still send is enough; a pass of the server
-- over its descriptors one for each, for which one more than a bound of them is enough, and its
-- loop one answer of select in each round. The loop over event codes takes one round for each code,
-- for which the length of the text and one more is enough; the capture loops of tprtest one for
-- each look at the queues, and the loops of tprtrig and evrlock that only end with the program one
-- for each round. Out of fuel is `none`, which stands for a loop that goes on.
--
-- Not modelled: what is printed, but for the verdicts of the tests and the names of rates;
-- McsRead::close, which changes nothing that is read later; open and mmap of the device, which are
-- parameters of the programs; of the driver, module init and exit, fasync, and the frees of
-- tpr_remove; the 64-bit overflow of the write pointers of the queues; the
-- programs tprdump and tprtrigmon; signal handlers; the tests of the loader, the firmware, and the
-- copy of SsiPcieCore.
pub mod Apps
pub mod Base
pub mod Bus
pub mod Driver
pub mod Mcs
pub mod Prom
pub mod Regs
pub mod Text
pub mod Xvc
