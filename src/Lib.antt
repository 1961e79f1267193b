-- ===== src/Lib.antt =====
-- A model of the core of Triton's backend library: what a backend calls to collect the inputs of
-- a batch of requests into tensors and to hand the rows of an output tensor to the responses, the
-- tracking of device memory, and the parts that these rest on.
--
-- The parts, from the bottom up, and how they interact:
--   Triton        memory types, data types and error codes; `TRITONSERVER_Error*` results, with
--                 RETURN_IF_ERROR as bind and RETURN_ERROR_IF_FALSE as `ensure`
--                 (include/triton/backend/backend_common.h)
--   Machine       memory, `memcpy`, and a CUDA stream as the queue of copies still to be made
--   Shape         GetElementCount, GetByteSize (src/backend_common.cc)
--   StringBuffer  ValidateStringBuffer (src/backend_common.cc)
--   Copy          CopyBuffer (src/backend_common.cc)
--   Responses     the row of response pointers; RESPOND_AND_SET_NULL_IF_ERROR and
--                 SendErrorForResponses (include/triton/backend/backend_common.h,
--                 src/backend_common.cc); Requests is RequestsRespondWithError
--   BackendMemory the constructors and the destructor of BackendMemory (src/backend_memory.cc)
--   Server        the calls on requests and inputs that the server implements
--   Reader        ReadInputTensor (src/backend_common.cc)
--   Collector     BackendInputCollector (src/backend_input_collector.cc): Iterator is its
--                 InputIterator; State its members; Tensor is GetUsePinnedMemoryType,
--                 SetInputTensor and FlushPendingPinned; Process is LaunchCopyKernel,
--                 FlushPendingCopyKernel, ProcessTensor into a given buffer and Finalize;
--                 Contiguous is GetInputBufferIfContiguous and the ProcessTensor that finds its
--                 own buffer
--   Responder     BackendOutputResponder (src/backend_output_responder.cc): State its members,
--                 Flush is SetFixedSizeBuffer, FlushPendingPinned, Finalize and the destructor;
--                 Process is ProcessTensor (`process_output_tensor`), ProcessStateTensor and
--                 ProcessBatchOutput. Scatter, Deferred and Delivered are about what reaches the
--                 outputs
--   BatchInput    the batch inputs of the collector (src/backend_input_collector.cc): Elements is
--                 SetElementCount, SetAccumulatedElementCount and SetBatchItemShape; Process is
--                 BatchInputShape and ProcessBatchInput
--   Tracker       DeviceMemoryTracker (src/device_memory_tracker.cc,
--                 include/triton/backend/device_memory_tracker.h): Usage is MemoryUsage, Activity
--                 is TrackActivityInternal and UpdateMemoryTypeUsage
--   Config        what is read from a model's configuration (src/backend_common.cc): DataTypes is
--                 ModelConfigDataTypeToTritonServerDataType; Batches is ParseShape and the two
--                 ParseFromModelConfig of batch inputs and outputs; Controls is
--                 GetBooleanSequenceControlProperties and GetTypedSequenceControlProperties
--   Model         BackendModel (src/backend_model.cc, include/triton/backend/backend_model.h)
--                 and, as Instance, BackendModelInstance (src/backend_model_instance.cc) with
--                 CreateCudaStream (src/backend_common.cc)
--   Paths         GetDirectoryContents, IsDirectory, JoinPath and ModelPaths
--                 (src/backend_common.cc)
--   Minimal       TRITONBACKEND_ModelInstanceExecute of the minimal backend
--                 (examples/backends/minimal/src/minimal.cc)
--   Batching      Volume and Single are the two strategies of examples/batching_strategies
--   Prelude       the names, tests and lemmas that the parts share
--   Examples      the theorems at concrete inputs
-- The collector's ProcessTensor asks the iterator for inputs, the iterator asks the server and
-- reports its errors to the responses, SetInputTensor copies with CopyBuffer or puts an input
-- off, and the flushes stage what was put off through BackendMemory. Each of these states is a
-- field of the record `Collector`, which the operations pass on. The responder works the other
-- way round: it asks the server for the buffer of each output, copies its part of the tensor or
-- puts it off, and the flush stages what was put off through pinned memory, from which Finalize
-- copies it once the stream has been waited for; its state is the record `Responder`. The tracker
-- gets its records in the order in which CUPTI gives them, and charges each to the object that
-- the map of correlation ids names. The model reads its batch inputs and outputs from the
-- configuration with the functions of Config. An execution of the minimal backend makes a
-- response for each request, has the collector process the input and the responder the output,
-- and sends the responses that neither has answered with an error.
--
-- Parameters of the model, since their code is not in the repository: the server's calls on
-- requests (`Server`, `RequestApi`, `ResponseApi`, `OutputApi`, `AttributesApi`, `Calls`) and on
-- models (`ModelCalls`, `InstanceCalls`), the memory manager and the CUDA runtime (`Allocators`,
-- `Cuda`, `launches`, `StreamCalls`), the file system (`FileSystem`), the conversion of integers
-- to `float` (`float_bits`), the JSON library and std::stoul (`ConfigApi`, `Json`). What a
-- variable holds that the code leaves uninitialized is an argument (`junk`, `first`, `count`,
-- `Stale`, `Uninitialized`, `stale_name`, `stale_type`), and so is the capacity that the standard
-- library gives a vector (`grow`). Addresses and the ids of devices are natural numbers, 0 is the
-- null pointer, host and device share one address space. Sizes and offsets of buffers in memory
-- do not wrap; element counts, byte sizes of shapes and batch volumes do, as do the offsets in
-- the tensor of a responder, as in the code. Where the product of a shape's dimensions overflows,
-- which C++ leaves undefined, the model has the value of a build that wraps around.
--
-- Fuel: `validate_string_buffer` has a round for each byte and one more, and always ends within
-- them; `all_inputs` and `process_tensor` get a round for each buffer and one more in the
-- theorems that say what they return; `process_tensor_allowed` and an execution get a round for
-- each buffer that the requests can have by a bound on their number, and one more for each
-- request. `none` as their result means that the fuel ran out.
--
-- Not modelled: messages of errors and logs; the buffer-ready event; copies on the work queue
-- (`use_async_cpu_copy_`), where the order of the worker threads matters; the conversion of text
-- to numbers; the subscription to CUPTI and the tracking of threads; what the outputs of
-- ProcessBatchInput, or of what reads the configuration, hold after an error; the other callbacks
-- of the minimal backend, and the recommended and BLS backends, which are further clients. In the
-- copy kernel, the arrays of pointers and sizes are taken to hold what was put into them.
pub mod Prelude
pub mod Triton
pub mod Machine
pub mod Config
pub mod Minimal
pub mod Model
pub mod Paths
pub mod Collector
pub mod Server
pub mod BackendMemory
pub mod Copy
pub mod Responses
pub mod Shape
pub mod StringBuffer
pub mod Batching
pub mod Reader
pub mod Responder
pub mod BatchInput
pub mod Tracker
pub mod Examples
