-- ===== src/Lib.antt =====
-- Subgen English for Plex: models and theorems of its transcription core.
--
-- The program turns media files into subtitles. A long file is cut into chunk windows: for each
-- one the audio is extracted with some context around it, recognised, staged on the timeline of
-- the source, and committed to external storage in order. When memory is short a chunk policy
-- shortens the following windows and the interval is tried again. One worker runs this as a loop;
-- several workers share a file through a coordinator that hands out ranges, keeps staged results,
-- and commits the contiguous prefix.
--
-- Parts and files. Common holds what the others share: tests on numbers, lists, integers,
-- exceptions as values, and Common/Action, state passing with exceptions and its triples. An
-- exception that is no Exception, such as an interrupt, has a constructor of its own.
-- Segmentation is subgen_core/segmentation.py: Number and Recognition are the values of a
-- structured recognition; Window is ChunkWindow, plan_next_window and chunk_progress_callback;
-- Copy and Staging are the helpers of stage_chunk_result and that function; Assembly is
-- AssemblyState and commit_chunk; Sequential is run_segmented_transcription; Ranges and Parallel
-- are ParallelChunkCoordinator, its storage calls in Parallel/Storage. Resource/Chunks is
-- AdaptiveChunkState of subgen_core/resource_management.py, which Sequential calls.
-- Resource/Capacity holds the byte guards, reserves, limits and chunk durations of that file,
-- whose policy argument is ExecutionPolicy of subgen_core/execution_policy.py. Resource/Admission
-- is its evaluate_admission, over an observation that subgen_core/resource_probes.py defines.
-- Resource/Cohort is its evaluate_cohort_admission and Resource/Reservation its
-- CohortReservation. Queueing is DeduplicatedQueue of subgen_core/queueing.py, with a step for
-- each section that its lock or the lock of the heap protects. The order of the heap is that of
-- the pairs of priority and clock reading; whether the heap compares two tasks that have both in
-- common, which raises TypeError, is an argument of put and take. Execution is
-- resolve_execution_policy of subgen_core/execution_policy.py. Priority is PriorityState and
-- PriorityObservation of subgen_core/priority_pressure.py, and Resource/Pressure is the
-- PressureController of subgen_core/resource_management.py that listens to it: Signal and Listen
-- are its methods on an observation of the priority signal; Gauge, Phases and Observe are those
-- on an observation of the memory; Publish and Polling are the gate with its receipts and the
-- polls; Calls and Loading are the methods that others call; Create is the constructor; Steps
-- lists the calls and what a controller reaches by them. Journal is SegmentJournal of
-- subgen_core/segmented_result.py: File is its anonymous file, Commit its calls that write, Read
-- its forward reading. Tests holds runs on concrete inputs. A file below a module is about what
-- that module defines, and is named for what it proves.
--
-- State and operations. AssemblyState, AdaptiveChunkState and the coordinator are records with
-- the fields of the classes; a method returns the new record, or an exception as a value. The
-- callbacks that the caller injects are functions over a state of the caller, which may change
-- it, return anything and raise; a run carries that state, the chunk policy and a trace of
-- events, which records when a chunk was started, stored, committed and unwound and when the
-- transcript was finalized. The journal is a record beside its file, a list of bytes with a
-- position, any call of which may raise, a write in the middle; the JSON encoder and decoder are
-- the parameter Codec, whose law Faithful says that a line loads as its record and holds no
-- newline, and the advice to the page cache has no effect. The pressure controller is a record
-- for the settings and one for the fields that change; its calls run over a node of these fields
-- and the state of its callables, the clock, the readers and the observer. The requirement of a
-- load is of a type of the caller's, read through the record Evidence, whose post_init stands for
-- __post_init__. The dictionaries of the coordinator are association lists. The object identity
-- of an assignment is the attempt number of its window, which a coordinator gives once.
--
-- Numbers. A time is a whole number of microseconds, and a midpoint is compared doubled, so that
-- ownership is exact; the rounding of binary floats is not modelled. An age in a snapshot of the
-- gate is in whole milliseconds, and a PSI percentage in millionths. An int of the source is an
-- integer of any size, as in the source. A dynamic value that a field may hold is an int, a
-- finite float, a float that is not finite, a bool, a string, None, or another object.
--
-- Loops. A loop over a list is structural recursion. The loop of a run and the loop of
-- commit_ready recurse on fuel and return none when it runs out: a run needs one more than the
-- chunks of the minimum duration that cover the media, and a commit one more than the entries
-- that are ready, which commit_ready itself supplies. The reading of the journal has as much fuel
-- as there are committed bytes, since every turn passes one.
--
-- Not modelled: processes, threads and their clean-up, the recognisers, ffmpeg, HTTP and MQTT,
-- the persistence of receipts, of segmented_result.py the reading backwards, the merging of short
-- cues, the bounded store of pending chunks and the rendering, and in resource_management.py the
-- discovery of capacity, the selection of a model, and of the pressure controller the waiting
-- loop wait_for_recovery, the refusal for an explicit model and the snapshots for a status page.
-- The locks of the pressure controller have no counterpart: a call holds them from its start to
-- its end, so calls follow one another. The type checks of Python on arguments whose type the
-- models fix, such as a callback that must be callable, have no counterpart. The coordinator is
-- owned by one thread, as its documentation asks, so calls do not interleave inside a method, and
-- a callback does not call it back.
pub mod Common
pub mod Segmentation
pub mod Priority
pub mod Resource
pub mod Journal
pub mod Queueing
pub mod Execution
pub mod Tests
