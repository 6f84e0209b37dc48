-- ===== src/ReqQueue.antt =====
-- pkg/reqscheduler/reqqueue.go: the queue of requests that wait for an instance. It is one object,
-- made once; each method holds its lock, so each is one step on the list. `Len` takes no lock: it
-- reads one word.
pub mod Fifo
pub mod Stats
use pixels_spike.Base.{ℕ, List, [], ◌∷◌, ◌++◌, map, Option, none, some, String, length}
use pixels_spike.Base.Int.{ℤ, pos, add32, max_ℤ}
use pixels_spike.Base.Keys.{Key, lookup, insert, update, string_keys}

-- A channel is its identity; `none` is the nil channel.
pub record Request : Type 0 where
  pub function_name : String
  pub request_id : ℕ
  pub req_payload : String
  pub required_cpu : ℤ
  pub required_memory : ℤ
  pub resp_payload_chan : Option ℕ

pub record ReqQueue : Type 0 where
  pub qu : List Request

pub record FuncStat : Type 0 where
  pub function_name : String
  pub cpu_max : ℤ
  pub memory_max : ℤ
  pub cpu_sum : ℤ
  pub memory_sum : ℤ

-- `NewReqQueue`, on its first call.
abbrev pub new_req_queue : ReqQueue
new_req_queue = record { qu = [] }

unfoldable pub len : ReqQueue → ℕ
len r = length r.qu

abbrev front : List Request → Option Request
front [] = none
front (req ∷ rest) = some req

unfoldable pub peek : ReqQueue → Option Request
peek r = front r.qu

abbrev remove_front : List Request → List Request
remove_front [] = []
remove_front (req ∷ rest) = rest

unfoldable pub pop : ReqQueue → ReqQueue
pop r = record { qu = remove_front r.qu }

unfoldable pub push : Request → ReqQueue → ReqQueue
push request r = record { qu = r.qu ++ request ∷ [] }

-- A copy leaves the channel out.
abbrev pub copy : Request → Request
copy v = record v { resp_payload_chan = none }

unfoldable pub snapshot : ReqQueue → List Request
snapshot r = map copy r.qu

abbrev zero_stat : String → FuncStat
zero_stat name = record {
  function_name = name;
  cpu_max = pos 0;
  memory_max = pos 0;
  cpu_sum = pos 0;
  memory_sum = pos 0;
}

abbrev charge : Request → FuncStat → FuncStat
charge req s = record s {
  cpu_max = max_ℤ s.cpu_max req.required_cpu;
  memory_max = max_ℤ s.memory_max req.required_memory;
  cpu_sum = add32 s.cpu_sum req.required_cpu;
  memory_sum = add32 s.memory_sum req.required_memory;
}

-- `if stat[name] == nil { stat[name] = … }`.
abbrev ensure : String → Option FuncStat → List (String × FuncStat) → List (String × FuncStat)
ensure name none stat = insert name (zero_stat name) stat
ensure name (some s) stat = stat

-- One round of the loop of `GetStat`.
count_request : Request → List (String × FuncStat) → List (String × FuncStat)
count_request req stat =
    update req.function_name (charge req)
      (ensure req.function_name (lookup req.function_name stat) stat)

count_requests : List Request → List (String × FuncStat) → List (String × FuncStat)
unfolding count_request
count_requests [] stat = stat
count_requests (req ∷ rest) stat = count_requests rest (count_request req stat)

unfoldable pub get_stat : ReqQueue → List (String × FuncStat)
unfolding count_requests
get_stat r = count_requests r.qu []
