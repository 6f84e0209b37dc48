-- ===== src/ReqQueue/Stats.antt =====
-- pkg/reqscheduler/reqqueue.go: what `GetStat` reports.
use pixels_spike.Base.{
  ◌≡◌, refl, ap, ◌∙◌, inl, inr, Bool-cases, Option-cases, List, [], ◌∷◌, Option, none, some, String,
  arith, select, if◌then◌else◌,
}
use pixels_spike.Base.Int.{ℤ, pos, ◌+ℤ◌, wrap32, max_ℤ, add32-wrap32, +ℤ_assoc, +ℤ_zero, zero-+ℤ}
use pixels_spike.Base.Keys.{◌==◌, lookup, insert, update, string_keys, lookup-insert}
use pixels_spike.ReqQueue.{
  Request, ReqQueue, FuncStat, get_stat, count_request, count_requests, zero_stat, charge,
}
use text.Mathlib.TextEquality.{eq_iff}

-- The requests for one function, in order.
abbrev pub requests_of : String → List Request → List Request
requests_of name = select (λ r. r.function_name == name)

-- The true sum of a field, and its largest value, where that is above 0.
abbrev pub total : (Request → ℤ) → List Request → ℤ
total field [] = pos 0
total field (r ∷ rs) = field r +ℤ total field rs

abbrev pub greatest : (Request → ℤ) → ℤ → List Request → ℤ
greatest field m [] = m
greatest field m (r ∷ rs) = greatest field (max_ℤ m (field r)) rs

abbrev pub stat_of : String → List Request → Option FuncStat
stat_of name [] = none
stat_of name (r ∷ rs) = some (record {
  function_name = name;
  cpu_max = greatest (λ q. q.required_cpu) (pos 0) (r ∷ rs);
  memory_max = greatest (λ q. q.required_memory) (pos 0) (r ∷ rs);
  cpu_sum = wrap32 (total (λ q. q.required_cpu) (r ∷ rs));
  memory_sum = wrap32 (total (λ q. q.required_memory) (r ∷ rs));
})

-- An entry charged with the requests of a list, one after the other.
charge_all : List Request → FuncStat → FuncStat
charge_all [] s = s
charge_all (r ∷ rs) s = charge_all rs (charge r s)

abbrev start : String → Option FuncStat → FuncStat
start name none = zero_stat name
start name (some s) = s

abbrev charged : String → List Request → Option FuncStat → Option FuncStat
charged name [] o = o
charged name (r ∷ rs) o = some (charge_all (r ∷ rs) (start name o))

lookup-update :
    (name k : String) (f : FuncStat → FuncStat) (m : List (String × FuncStat)) (s : FuncStat)
    → lookup k m ≡ some s
    → lookup name (update k f m) ≡ (if k == name then some (f s) else lookup name m)
unfolding lookup update
lookup-update name k f [] s h = absurd (cc)
lookup-update name k f ((j, v) ∷ m) s h =
    ground (arith, eq_iff j k, eq_iff j name, eq_iff k name, lookup-update name k f m s)

lookup-count_request :
    (name : String) (r : Request) (m : List (String × FuncStat))
    → lookup name (count_request r m) ≡ (
        if r.function_name == name
        then some (charge r (start name (lookup name m)))
        else lookup name m)
unfolding count_request
lookup-count_request name r m = elim (Option-cases (lookup r.function_name m)) [
  | inl e ↦
      let k = r.function_name in
      ground (
        arith,
        eq_iff k k,
        eq_iff k name,
        lookup-insert k k (zero_stat k) m,
        lookup-insert k name (zero_stat k) m,
        lookup-update name k (charge r) (insert k (zero_stat k) m) (zero_stat k),
      )
  | inr (s, e) ↦
      let k = r.function_name in ground (arith, eq_iff k name, lookup-update name k (charge r) m s)
]

charged-cons :
    (name : String) (r : Request) (rs : List Request) (o : Option FuncStat)
    → charged name rs (some (charge r (start name o))) ≡ charged name (r ∷ rs) o
unfolding charge_all
charged-cons name r [] o = refl
charged-cons name r (q ∷ rs) o = refl

lookup-count_requests :
    (name : String) (rs : List Request) (m : List (String × FuncStat))
    → lookup name (count_requests rs m) ≡ charged name (requests_of name rs) (lookup name m)
unfolding count_requests
lookup-count_requests name [] m = refl
lookup-count_requests name (r ∷ rs) m =
    let step = lookup-count_request name r m in
    let rest = lookup-count_requests name rs (count_request r m) in
    elim (Bool-cases (r.function_name == name)) [
      | inl e ↦ rw e (
          rest
          ∙ ap (charged name (requests_of name rs)) (rw e at step)
          ∙ charged-cons name r (requests_of name rs) (lookup name m))
      | inr e ↦ rw e (rest ∙ ap (charged name (requests_of name rs)) (rw e at step))
    ]

charge_all_lem :
    (name : String) (rs : List Request) (cm mm c m : ℤ)
    → charge_all rs (record {
      function_name = name;
      cpu_max = cm;
      memory_max = mm;
      cpu_sum = wrap32 c;
      memory_sum = wrap32 m;
    })
      ≡ record {
        function_name = name;
        cpu_max = greatest (λ q. q.required_cpu) cm rs;
        memory_max = greatest (λ q. q.required_memory) mm rs;
        cpu_sum = wrap32 (c +ℤ total (λ q. q.required_cpu) rs);
        memory_sum = wrap32 (m +ℤ total (λ q. q.required_memory) rs);
      }
unfolding charge_all
charge_all_lem name [] cm mm c m = rw (+ℤ_zero c, +ℤ_zero m)
charge_all_lem name (r ∷ rs) cm mm c m = rw (
  add32-wrap32 c r.required_cpu,
  add32-wrap32 m r.required_memory,
  charge_all_lem name rs _ _ (c +ℤ r.required_cpu) (m +ℤ r.required_memory),
  +ℤ_assoc c r.required_cpu (total (λ q. q.required_cpu) rs),
  +ℤ_assoc m r.required_memory (total (λ q. q.required_memory) rs),
)

charged-stat_of : (name : String) (rs : List Request) → charged name rs none ≡ stat_of name rs
unfolding wrap32
charged-stat_of name [] = refl
charged-stat_of name (r ∷ rs) = ap some (
    charge_all_lem name (r ∷ rs) (pos 0) (pos 0) (pos 0) (pos 0)
    ∙ rw (
      zero-+ℤ (total (λ q. q.required_cpu) (r ∷ rs)),
      zero-+ℤ (total (λ q. q.required_memory) (r ∷ rs)),
    ))

-- `GetStat` has an entry for exactly the functions with a waiting request. The entry's maxima are
-- the greatest demands among those requests, where above 0, and its sums are the true sums,
-- wrapped around to 32 bits.
pub get_stat-stat_of :
    (q : ReqQueue) (name : String) → lookup name (get_stat q) ≡ stat_of name (requests_of name q.qu)
unfolding get_stat lookup
get_stat-stat_of q name =
    lookup-count_requests name q.qu [] ∙ charged-stat_of name (requests_of name q.qu)
