-- ===== src/Lib.antt =====
-- haussteuerung: the control program of a house (shutters, ventilation, lights, valves), its
-- devices behind E6 gateways on the network, as functions and step relations.
--
-- The program, src/haussteuerung.cpp, reads messages from a queue and from the network and calls
-- the methods of the device classes. A device class keeps a small state, writes it to an output
-- port through the TCP client of its gateway, and shows it in a shared memory. Timers are
-- detached threads that sleep and then call a method of their object.
--
-- Modules and the files they model:
--   Config        include/hs_config.h, the constants
--   Pcf8574       src/pcf8574_ts.cpp, include/pcf8574.h
--   E6TcpClient   src/e6tcpclient.cpp, include/e6tcpclient.h
--   Max7311       src/max7311_ts.cpp, include/max7311.h
--   Jalousie      src/jalousie.cpp, include/jalousie.h
--   Abluft        class Abluft of src/abluft.cpp, include/abluft.h
--   Switches      classes HWR, Orient and HsGui of src/abluft.cpp
--   Terrasse      class Terrasse of src/abluft.cpp
--   Hauscode      class Hauscode of src/devices.cpp, include/devices.h
--   RemoteFs20    class RemoteFS20 of src/devices.cpp
--   MsgQueue      class MsgQueue of src/sharedMem.cpp, include/sharedMem.h
--   SharedMem     class sharedMem of src/sharedMem.cpp, include/sharedMem.h
--   E6UdpServer   src/e6udpserver.cpp, include/e6udpserver.h
--   Wetter        class Wetter of src/devices.cpp
--   GuiTcpServer  src/guitcpserver.cpp, include/guitcpserver.h
--   Sensor        src/temp.cpp, src/ds1631_ts.cpp and their headers
--   Log           the rotation of files in src/log.cpp
--   Dispatch      of src/haussteuerung.cpp the branches CMD_JAL and CMD_WATER, and msgsndAllJal
--   Rooms         the branches CMD_FLOOR, CMD_ABLUFT, CMD_HWR and CMD_STECKDOSE_TERRASSE there, and
--                 tempControlHWR
--   Lamps         the branches CMD_LICHT, CMD_LICHT_RESET_TIMER and CMD_SZENE there
--   Requests      the branches CMD_WETT, CMD_HELL, CMD_GET_HSINFO, CMD_SEND_HSINFO and
--                 CMD_SET_CONFIG there
--   Boot          the paths, the semaphores and the shared memory at the start of main, and
--                 initSemaphore
--   Replace       stringReplace there
--   ConfigFile    the branch CMD_GET_CONFIG there, with countLines of src/log.cpp
--   Dimmer        the branch CMD_DIMM there, with the thread of the dimmer in src/devices.cpp
--   House         the objects of main there together, the dispatch of all messages over them, and
--                 init_E6TCPClient
--   Updates       writeUpdatesToSharedMem there
--   TimeControl   compareTimeString, timeControl and timeControlLicht there
--   Cron          cronTimer there
--   Ini           the interface of lib/iniparser-2.16, a library of another project
--
-- A class is a record, a method a function on it with the name of the method. Commands that go out
-- are kept in the record, the newest first. A method is one step of the relation `Step` of its
-- module. Where the code works without the mutex of the object, it is taken apart: `setPosition` of
-- a timer of the shutters in the step relation, `init` of the shutters in Jalousie/Race and
-- `setVentil` of the terrace in Terrasse/Course in theorems of their own. What the kernel, the
-- network or `pthread_create` answers is an argument.
--
-- A packet of the UDP server becomes a message, and Dispatch calls the methods of the device
-- classes for it, so a key of the remote control is followed up to the shutter, and so is a line
-- of the user interface over the queue, and a time of the configuration over timeControl. The
-- thread of the clock is a list of the times at which it looks. The weather is a step of its own
-- on the shutters. Times of day and temperatures are whole numbers: minutes, and tenths or
-- ten-thousandths of a degree; an average is its sum and its count.
--
-- An `int` is taken modulo 2 ^ 32 where the code multiplies or reads one, and a message type is a
-- `long` of 64 bits. A thread of the dimmer is in front of a command or asleep, and a cancelled one
-- ends in its sleep.
--
-- Loops over received data are recursion on the data, so they need no fuel; the digits of a number
-- are printed with the number as fuel, since each digit divides it by the base. The loop of `setb`
-- has fuel 16, and its first test already ends it. The loop of `setLampeWert` makes the 16 rounds
-- of its bounds. `take_all` makes as many rounds of the main loop as it is told. The loop of the
-- user interface over its lines has fuel, since one line can hold it for ever; one round for each
-- line is enough where every line is complete.
--
-- House puts the parts together: its step relation has a step for each message that the main loop
-- can take, of any type and text, one for each round of a thread, and those for what the thread of
-- the clock does to the objects: the control by the weather, which drives the shutters, averages,
-- the reset of the touch screen, reboots and messages. Port expanders that objects share are one
-- object. The end of a valve thread is one step there; the code takes no mutex for it, and
-- Terrasse/Course takes it apart. The loops of stringReplace and countLines have the length of the
-- text as fuel, since each round takes a byte.
--
-- Not modelled: the times of the sun and the texts of weather values and temperatures, which
-- floating point numbers give, so they are arguments; the options of the command line; the system
-- calls themselves (sockets, files, semaphores, shared memory segments), the mutexes, and printing
-- to the log. A read of the user interface that fails is left, since it writes in front of the
-- buffer.
pub mod Prelude
pub mod Config
pub mod Pcf8574
pub mod E6TcpClient
pub mod Max7311
pub mod Jalousie
pub mod Ini
pub mod Abluft
pub mod Terrasse
pub mod Hauscode
pub mod RemoteFs20
pub mod Switches
pub mod Dispatch
pub mod E6UdpServer
pub mod SharedMem
pub mod MsgQueue
pub mod TimeControl
pub mod Wetter
pub mod GuiTcpServer
pub mod Rooms
pub mod Cron
pub mod Log
pub mod Lamps
pub mod Sensor
pub mod Requests
pub mod Updates
pub mod Boot
pub mod Replace
pub mod ConfigFile
pub mod Dimmer
pub mod House
