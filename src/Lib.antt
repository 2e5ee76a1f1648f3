-- ===== src/Lib.antt =====
-- A verification of the vision alignment framework: the messages between the equipment and the
-- vision computer (VisionCom), the tasks and sequences that align it (DVH_Library), and the tasks of
-- the Load1 unit with the machine's inputs, outputs and switches (Equipment2015).
--
-- The parts and how they interact. A vision computer sends packets of a fixed size over TCP. The
-- client of VisionCom receives bytes, a framer cuts them into frames, the controller queues the frames
-- and hands them to the handlers of a dispatcher. A sequence of DVH_Library runs its tasks one behind
-- the other; a task is polled until it is done, and in each poll one handler of its state machine asks
-- the actuator, the vision or the repository for one step. The tasks share one context. A repository may
-- stand behind a queue whose thread writes later. The switches of the operator are polled over a card.
--
-- Prelude: names, tests, lists over native numbers, signed and 32-bit numbers.
-- Vision/Framer: VisionCom/Include/FixedLengthFramer.h; Framing says what a stream is cut into, Stream
--   compares pieces with the whole.
-- Vision/Bytes: VisionCom/Include/ByteOrder.h. Vision/Packet: VisionCom/Src/SECSIPacket.cpp.
-- Vision/Dispatcher: VisionCom/Src/VisionMsgDispatcher.cpp.
-- Vision/Scheduler: VisionCom/Src/WorkerScheduler.cpp, as steps of its threads and callers in any
--   order; Shutdown says which tasks are taken, Threads how many threads there are.
-- Vision/Link: HandleTransportData, ProcessPackets, StartReceiving and StopReceiving of
--   VisionCom/Src/VisionController.cpp and RecvOnce of VisionCom/Src/VisionTcpClient.cpp, which share
--   one framer; Delivery and Wiring say what reaches the queue.
-- Vision/Client: connecting and sending of VisionCom/Src/VisionTcpClient.cpp, and SendPacketAsync;
--   Sending says what is sent.
-- Vat/Context: DVH_Library/include/VAT_Context.h and src/VAT_Context.cpp.
-- Vat/World: the actuator, the vision, the repository and the clock as oracles over the log of all
--   calls, the object of a task, and the monad of its handlers; Vat/Access: the calls of the context.
-- Vat/Task: DVH_Library/include/NonBlockingTaskBase.h; Outcomes says what an action leaves behind, Polling
--   repeats Execute, Travel says when it is safe to move, and Readings what the vision has said and where.
-- Vat/Sequence: DVH_Library/src/VatSequence.cpp; Meaning is its relation without fuel, Termination says
--   when it ends, Keeping what a run keeps if each of its tasks does.
-- Vat/Runner: DVH_Library/src/AsyncSequenceRunner.cpp, as steps of its thread and its callers; Paired is
--   about lists of reports, Reports says what it reports and when it takes a sequence, Stopping what becomes
--   of a stop request.
-- Processor/Store: the answers of the vision in DVH_Library/src/VisionProcessorBase.cpp.
-- Processor/Layout: the bodies of packets in DVH_Library/include/VisionPacketSLT.h; Texts reads what was
--   written into a field.
-- Processor/Slt: DVH_Library/src/VisionSLTProcessor.cpp; Replies is about one reply, Validity about any
--   messages behind a request, Measured about the texts of a measurement, Wire about its way from the
--   bytes of a link to the tasks.
-- Processor/Memory: DVH_Library/src/VisionMemoryProcessor.cpp, with Validity as for the other processor.
-- Repository/Async: DVH_Library/src/AsyncDataRepository.cpp, as steps of its callers and its thread; Queued
--   is about the writes of one kind, Order about what becomes of them, Attempts about the calls of the
--   inner repository.
-- Actuators/Dio: Equipment2015/Actuators/IDio.h, the interface of a card, with its laws. Actuators/Io:
--   CMmceIo.cpp beside it; Bits and Channels show that it keeps the laws.
-- Actuators/Timer, Actuators/Switch: CTimer.cpp and COPSwitch.cpp beside it, over any card; Toggle, Led and
--   Exclusive are about the status, the lamps and the groups of switches.
-- Actuators/Cylinder: CCylinderBase.cpp beside it; Waiting says how its commands end.
-- Load1/MoveToStart, Load1/FovScanning, Load1/FocusScanning, Load1/FindAlign, Load1/Backlash,
--   Load1/PcdScanning, Load1/HandPitch, Load1/PickerFov, Load1/Calibration: the tasks of the same names in
--   Equipment2015/DVH_VAT/Load1/Tasks, one function for each handler.
-- Load1/PcdSequence: Equipment2015/DVH_VAT/Load1/Sequences/CLoad1PCDSequenceBuilder.h, the start task and the
--   pitch task under the loop; Start and Pitch are about a poll of each, Handover about what each leaves to
--   the other, Steps about a round of the loop, Success about a run, NextMark about the way back.
-- Vision/Examples, Vat/Examples, Processor/Examples, Repository/Examples, Actuators/Examples,
--   Load1/Examples: the theorems at concrete inputs.
--
-- Conventions. A byte is a number, an `int` that is sent is its 32-bit pattern, a `double` is a value
-- of any type with the operations of the environment. A container is a list. A C++ exception, a null
-- pointer and an index out of range are outcomes of a handler. Loops over bytes take fuel; the theorems
-- ask for more fuel than there are bytes, since each round takes at least one. The loop of a sequence
-- has no bound of its own in the code: Meaning speaks of any fuel, and Termination names enough of it. The
-- loop of a cylinder takes fuel for the readings of the clock until its time is up.
-- Undefined behaviour of a task is taken for an exception by the loop of the PCD sequence.
-- Each operation under a lock is one step; between two polls of a task its context may change in any way.
--
-- Not modelled: the tasks of Load1 that only copy results into the repository; the builders of the other
-- sequences, which are lists of tasks; the correction engine, which stands before the runner with null
-- tests; two threads in Start of the runner at once, which is undefined behaviour of its join; the threads
-- of the vision processors; the actuators' classes, which stand behind the interface of the actuator; the
-- repositories behind the queue, which are SQL and files; user interface, loggers, mocks and copied headers.
pub mod Prelude
pub mod Vision
pub mod Vat
pub mod Processor
pub mod Repository
pub mod Actuators
pub mod Load1
