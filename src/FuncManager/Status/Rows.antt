-- ===== src/FuncManager/Status/Rows.antt =====
-- pkg/funcmanager/funcmanager.go: the row that a refresh makes of an instance and its task.
use pixels_spike.Base.{
  ◌≡◌, refl, List, [], ◌∷◌, Option, none, some, Bool, true, false, String, Memᴰ, ℕ, ◌⊎◌,
  if◌then◌else◌,
}
use pixels_spike.Base.Exits.{Exit, returns, fails, panics, Step, proceed}
use pixels_spike.Base.Int.{wrap32}
use pixels_spike.Base.Numerals.{atoi}
use pixels_spike.AwsClient.{Cloud, Task}
use pixels_spike.FuncManager.{FuncManager}
use pixels_spike.FuncManager.Status.{deref, read_details, first_details, ip_of, with_task}
use pixels_spike.FuncManager.Status.Described.{
  Details, last_named, IsPublic, IsPrivate, Reads, read_details-Reads,
}
use pixels_spike.FuncManager.Status.Faults.{IsIncomplete}
use pixels_spike.Model.{FuncInstance}
use pixels_spike.Storage.{Gorm}

module _ {S V : Type 0} (db : Gorm S) (cloud : Cloud S) (f : FuncManager) (now : S → ℕ × S)
    (view : S → V)
    (interfaces_keep : (id : String) (s : S)
      → view (cloud.describe_network_interfaces id s).1 ≡ view s) where
  -- The address is the public one of the last interface, or the last private one, as configured.
  abbrev pub IsAddress : Bool → Details → String → Type 0
  IsAddress true details ip =
      IsPublic db cloud f now view interfaces_keep (last_named "networkInterfaceId" details) "" ip
  IsAddress false details ip = IsPrivate (last_named "privateIPv4Address" details) "" ip

  -- The row has the state and the address of the task, and the rest of the instance.
  pub record IsRowOf (instance : FuncInstance) (task : Task) (row : FuncInstance) : Type 0 where
    pub task_arn : task.task_arn ≡ some row.aws_task_arn
    pub last_status : task.last_status ≡ some row.last_status
    pub desired_status : task.desired_status ≡ some row.desired_status
    pub cpu : (n : String) × (task.cpu ≡ some n) × (row.cpu ≡ wrap32 (atoi n))
    pub memory : (n : String) × (task.memory ≡ some n) × (row.memory ≡ wrap32 (atoi n))
    pub address :
        IsAddress f.use_public_ipv4 (first_details db cloud f now task.attachments) row.ipv4
    pub same_else : row ≡ record instance {
      aws_task_arn = row.aws_task_arn;
      ipv4 = row.ipv4;
      cpu = row.cpu;
      memory = row.memory;
      last_status = row.last_status;
      desired_status = row.desired_status;
    }

  -- The row is made, or the task is incomplete; nothing is written.
  abbrev pub MakesRow : FuncInstance → Task → S → Exit FuncInstance × S → Type 0
  MakesRow instance task s (returns row, t) = IsRowOf instance task row × (view t ≡ view s)
  MakesRow instance task s (fails e, t) = ⊥
  MakesRow instance task s (panics message, t) = IsIncomplete task × (view t ≡ view s)

  module _ (instance : FuncInstance) (task : Task) (s : S) where
    -- A pointer of the task is read.
    deref-MakesRow :
        {A : Type 0} (o : Option A) (k : A → Step S FuncInstance) (t : S)
        → view t ≡ view s
        → (o ≡ none → IsIncomplete task)
        → ((a : A) → o ≡ some a → MakesRow instance task s (k a t))
        → MakesRow instance task s
            (proceed (deref db cloud f now o t).0 k (deref db cloud f now o t).1)
    deref-MakesRow none k t kept nil rest = (nil refl, kept)
    deref-MakesRow (some a) k t kept nil rest = rest a refl

    value_nil :
        (attached : List Details) (name : String)
        → task.attachments ≡ attached
        → (name ≡ "networkInterfaceId") ⊎ (name ≡ "privateIPv4Address")
        → Memᴰ (some name, none) (first_details db cloud f now attached)
        → IsIncomplete task
    value_nil [] name e n m = elim m [ ]
    value_nil (details ∷ rest) name e n m = IsIncomplete.no_value details rest name e n m

    details-MakesRow :
        (x : Exit (String × String) × S) (k : String × String → Step S FuncInstance)
        → Reads db cloud f now view interfaces_keep
            (first_details db cloud f now task.attachments)
            ("", "")
            s
            x
        → ((ips : String × String) (t : S)
            → view t ≡ view s
            → IsAddress f.use_public_ipv4
                (first_details db cloud f now task.attachments)
                (ip_of db cloud f now ips)
            → MakesRow instance task s (k ips t))
        → MakesRow instance task s (proceed x.0 k x.1)
    details-MakesRow (returns (public_ipv4, private_ipv4), t) k (p, q, kept) rest =
        rest (public_ipv4, private_ipv4) t kept (configured f.use_public_ipv4)
      where
        configured :
            (b : Bool)
            → IsAddress b
                (first_details db cloud f now task.attachments)
                (if b then public_ipv4 else private_ipv4)
        configured true = p
        configured false = q
    details-MakesRow (fails e, t) k h rest = absurd h
    details-MakesRow (panics message, t) k ((name, n, m), kept) rest =
        (value_nil task.attachments name refl n m, kept)

    pub with_task-MakesRow : MakesRow instance task s (with_task db cloud f now instance task s)
    unfolding with_task
    with_task-MakesRow = deref-MakesRow task.cpu _ s refl IsIncomplete.no_cpu (λ cpu at_cpu.
        deref-MakesRow task.memory _ s refl IsIncomplete.no_memory (λ memory at_memory.
          details-MakesRow
            (read_details db cloud f now (first_details db cloud f now task.attachments) ("", "") s)
            _
            (read_details-Reads db cloud f now view interfaces_keep
              (first_details db cloud f now task.attachments) ("", "") s)
            (λ ips t kept address.
              deref-MakesRow task.task_arn _ t kept IsIncomplete.no_task_arn (λ arn at_arn.
                deref-MakesRow task.last_status _ t kept IsIncomplete.no_last_status
                  (λ last at_last.
                    deref-MakesRow task.desired_status _ t kept IsIncomplete.no_desired_status
                      (λ desired at_desired. (
                        record {
                          task_arn = at_arn;
                          last_status = at_last;
                          desired_status = at_desired;
                          cpu = (cpu, at_cpu, refl);
                          memory = (memory, at_memory, refl);
                          address = address;
                          same_else = refl;
                        },
                        kept,
                      )))))))
