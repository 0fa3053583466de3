-- ===== src/Lib.antt =====
-- malincam: a USB webcam out of a V4L2 camera. The program reads frames from a camera, passes them
-- through an image processor and an encoder, and offers them to a USB host as a UVC gadget.
--
-- Parts of the program, and the files that model them (paths from the repository's root):
--   src/array.h        Array.antt: `arrayInit`, `arrayReserve`, `arrayAppend`, `arrayDestroy`. The block
--                      behind `data` is NULL, live or freed.
--   src/queue.c        Queue.antt: `queueInit`, `queuePush`, `queuePop`, `queuePeek`, over Array.
--   src/device.c       Device.antt (device.h: the stream and its buffers), Device/Picture.antt (format,
--                      crop, compose), Device/Buffers.antt (`streamRequestBuffers` and what it calls),
--                      Device/Stream.antt (`deviceStreamPrepare`, `deviceStreamStart`,
--                      `deviceStreamStop`), Device/Transfer.antt (`deviceStreamPullBuffer`,
--                      `deviceStreamPushBuffer`), Device/Open.antt (`deviceOpen`, `deviceClose`, events),
--                      Device/Open/Formats.antt (`deviceStreamQueryFormats`). V4l2.antt and
--                      Abi.antt hold the kernel's structures
--                      and numbers that the code names.
--   src/pump.c         Pump.antt (pump.h), Pump/Pass.antt (the table of pass functions), Pump/Create.antt
--                      (`pumpCreate`, `pumpDestroy`), Pump/Cycle.antt (`pumpPump`). Pump/Claims.antt and
--                      Pump/Ownership.antt hold who owns which buffer.
--   src/UVC.c          Uvc.antt, Uvc/Controls.antt (the controls and their table), Uvc/Dispatch.antt
--                      (`usbUvcDispatchRequest`), Uvc/Events.antt (`processEvent` and below),
--                      Uvc/Open.antt (`uvcOpen`).
--   src/pollinator.c   Pollinator.antt: `pollinatorMonitorFd`, `pollinatorPoll`.
--   src/V4l2Control.c  V4l2Control.antt: `v4l2ControlGet`, `v4l2ControlSet`, `v4l2ControlSetById`, and the
--                      enumeration of controls.
--   src/Node.c         Node.antt: `nodeStart`, `nodeStop`.
--   src/Led.c          Led.antt: `ledBlinkEnable`, `ledBlinkUpdate`.
--   src/subdev.c       Subdev.antt (`subdevOpen` with its enumerations, `subdevClose`), Subdev/Formats.antt
--                      (`subdevSet`).
--   src/Pilatform.c    Platform.antt (`piOpenCamera`, `cameraDtor`), Platform/Isp.antt (`piOpenISP`,
--                      `ispDtor`), Platform/Encoder.antt (`piOpenEncoder`, `encoderDtor`),
--                      Platform/Numbers.antt (its constants).
--   src/main.c         Main.antt (the state `Pipeline`, `bitSetFunc`), Main/Setup.antt (`pipelineCreate`,
--                      `pipelineDestroy`), Main/Switch.antt (`pipelineStart`, `pipelineStop`),
--                      Main/Rounds.antt (`pipelineProcess` and the loop of `main`).
-- Prelude.antt passes on the libraries' names; its children hold C's `int` (Signed), lists over native
-- numbers (Lists), and runs that may fault (Outcome, Yields). Device/Bench.antt, Platform/Bench.antt and
-- Main/Bench.antt are a kernel in memory and a machine on it for the witnesses, which stand in the
-- Tests.antt of each part.
--
-- How the parts interact. A pump pulls buffers from one stream and pushes them to another: Pump/Cycle
-- calls Device/Transfer, on a pair of streams and a kernel that its state `Env` holds. A node starts
-- and stops its streams by Device/Stream. The gadget prepares its output stream by Device/Stream, and
-- calls its owner's function when the host turns streaming on or off: main.c's, which starts or stops
-- the four nodes and makes or destroys the three pumps between them. The program's state is the `World` of
-- Uvc/Events with the `Pipeline` of Main: each stream stands once, in its node, and a round of the
-- pipeline lends a pump its two streams and writes them back.
--
-- The kernel is a parameter. Each ioctl is a function of a state of the kernel (Device/Driver.antt,
-- `ControlDriver`, `SubdevDriver`, `Gadget`, `Epoll`, `Sysfs`). `Host`, `Platform` and `Machine`
-- gather them. `Documented` in Device/Transfer/Promises.antt states what the kernel documents of
-- VIDIOC_QBUF and VIDIOC_DQBUF, `NoEio` that none of the latter fails with EIO, which may drop a
-- buffer, and `QueueLaws` what both give; `Quiet` describes a kernel that gives finitely many buffers
-- while it is being called. Nothing is assumed of epoll: where it refuses a registration of main.c,
-- the ASSERT of pollinator.c fails, and the results of Main say so.
--
-- State and errors. A function of the program takes its state and gives back its value and the state.
-- A failed ASSERT, a NULL or freed pointer that is followed, an index out of range, and a pointer to
-- the stack of a function that has returned, are `fault`; -1 as an index and NULL are `none`. A negative
-- return value is a `negsuc` of Prelude/Signed. A pointer that the code only hands to the kernel, such as
-- `m.planes` of a buffer in VIDIOC_QBUF, is not followed by the program: it is part of the argument
-- (`stack_planes` for one to an array that is gone), and the kernel answers as it will. Bytes and
-- 16-bit fields that wrap are written with `%`.
--
-- Fuel. The two loops of `pumpPump` run until the kernel has no buffer: a unit of fuel is a round, and
-- more units than buffers will come are enough. `uvcProcessEvents`, `pollinatorPoll` and the enumeration of
-- controls, formats and sizes take a unit of fuel for an event, a repeated wait, a control, and so on.
--
-- Not modelled: src/v4l2-print.c and every log message, which are output only, with the time of the
-- previous frame of src/main.c that only messages read; the code of src/main.c that is not compiled
-- (`testUvc`, `readFrame`). Allocation is taken to succeed, and numbers that the code never lets wrap
-- (counts, sizes, descriptors) are natural numbers.
pub mod Prelude
pub mod Array
pub mod Abi
pub mod Queue
pub mod V4l2
pub mod Device
pub mod Node
pub mod V4l2Control
pub mod Subdev
pub mod Main
pub mod Platform
pub mod Led
pub mod Pump
pub mod Uvc
pub mod Pollinator
