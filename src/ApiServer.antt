-- ===== src/ApiServer.antt =====
-- pkg/apiserver/apiserver.go: the handlers of the service, over the function manager and the
-- scheduler of requests. The response of a handler that fails is nil, so only its error comes back.
pub mod Startup
pub mod Listing
use pixels_spike.Base.{ℕ, List, [], ◌∷◌, Bool, String, Result, ok, err, Action, map}
use pixels_spike.Base
use pixels_spike.Base.Exits.{Step, pure, ◌>>=◌, ◌>>◌}
use pixels_spike.Base.Int.{ℤ, pos}
use pixels_spike.AwsClient.{Cloud}
use pixels_spike.FuncManager
use pixels_spike.FuncManager.{FuncManager}
use pixels_spike.FuncManager.Functions
use pixels_spike.FuncManager.Functions.{CreateFunctionRequest, FunctionMetaData, ResourceStatus}
use pixels_spike.FuncManager.Scaling
use pixels_spike.FuncManager.Scaling.{ScaleFunctionRequest}
use pixels_spike.Scheduler.{ReqScheduleInfo}
use pixels_spike.Storage.{Gorm}
use pixels_spike.ReqScheduler
use pixels_spike.ReqScheduler.{CallFunctionRequest, CallFunctionResponse, Response, World}

-- The messages `CreateFunctionResponse` and `DeleteFunctionResponse`.
pub record CodeResponse : Type 0 where
  pub code : ℤ
  pub message : String

-- The message `GetReqScheduleInfoResponse_ReqScheduleInfo`.
pub record ApiReqScheduleInfo : Type 0 where
  pub req_id : ℕ
  pub req_payload : String
  pub function_name : String
  pub placed_aws_service_name : String
  pub placed_ins_ipv4 : String
  pub required_cpu : ℤ
  pub required_memory : ℤ

abbrev pub to_api_info : ReqScheduleInfo → ApiReqScheduleInfo
to_api_info info = record {
  req_id = info.req_id;
  req_payload = info.req_payload;
  function_name = info.function_name;
  placed_aws_service_name = info.placed_aws_service_name;
  placed_ins_ipv4 = info.placed_ins_ipv4;
  required_cpu = info.required_cpu;
  required_memory = info.required_memory;
}

-- `CallFunction`: the response and the error of the scheduler, as they are.
module _ {S : Type 0} (next_id : Action S ℕ) (receive : ℕ → World S → Response × World S)
    (max_retry : ℤ) where
  unfoldable pub call_function : CallFunctionRequest → ℕ → Action (World S) CallFunctionResponse
  call_function req resp_chan = ReqScheduler.call_function next_id receive max_retry req resp_chan

module _ {S : Type 0} (db : Gorm S) (cloud : Cloud S) (f : FuncManager) where
  unfoldable pub create_function : (ℕ → List ℕ) → CreateFunctionRequest → Step S CodeResponse
  create_function turns req = do
    created ← Functions.create_function db cloud f turns req
    pure (record { code = pos 0; message = "Function added" })

  unfoldable pub delete_function : String → Step S CodeResponse
  delete_function function_name = do
    deleted ← Functions.delete_function db cloud f function_name
    pure (record { code = pos 0; message = "Function deleted" })

  unfoldable pub get_all_functions : Step S (List FunctionMetaData)
  get_all_functions = Functions.get_all_function db cloud f

  unfoldable pub get_function_resources : String → Step S (String × List ResourceStatus)
  get_function_resources function_name = Functions.get_function_resources db cloud f function_name

  -- The services for which `ScaleFunction` starts goroutines come back beside the empty response.
  unfoldable pub scale_function : List ℕ → ScaleFunctionRequest → Step S (List String)
  scale_function turns req = Scaling.scale_function db cloud f turns req

module _ {S : Type 0} (db : Gorm S) where
  unfoldable pub get_req_schedule_info : String → Action S (List ApiReqScheduleInfo)
  get_req_schedule_info function_name =
      Base.◌>>=◌ (ReqScheduler.get_req_schedule_info db function_name)
        (λ infos. Base.pure (map to_api_info infos))
