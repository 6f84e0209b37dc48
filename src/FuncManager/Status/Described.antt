-- ===== src/FuncManager/Status/Described.antt =====
-- pkg/funcmanager/funcmanager.go: what the row of an instance has of a task that AWS described.
use pixels_spike.Base.{
  ℕ, ◌≡◌, refl, sym, ap, subst, ◌∙◌, List, [], ◌∷◌, Option, none, some, Bool, true, false, String,
  Result, ok, err, Memᴰ, inl, inr, ◌⊎◌, if◌then◌else◌,
}
use pixels_spike.Base.Exits.{Exit, returns, fails, panics, proceed}
use pixels_spike.Base.Keys.{◌==◌, string_keys}
use pixels_spike.AwsClient.{Cloud, get_public_ipv4, public_of}
use pixels_spike.FuncManager.{FuncManager}
use pixels_spike.FuncManager.Status.{read_detail, read_details, ip_or_empty}
use pixels_spike.Storage.{Gorm}

abbrev pub Details : Type 0
Details = List (Option String × Option String)

abbrev pub or_last : Option (Option String) → Option (Option String) → Option (Option String)
or_last (some w) o = some w
or_last none o = o

-- The value of the last detail of the name.
abbrev pub last_named : String → Details → Option (Option String)
last_named x [] = none
last_named x ((none, v) ∷ rest) = last_named x rest
last_named x ((some name, v) ∷ rest) =
    or_last (last_named x rest) (if name == x then some v else none)

or_last-none : (o : Option (Option String)) → or_last o none ≡ o
or_last-none none = refl
or_last-none (some w) = refl

-- The address in a reply on an interface: that of the first one, if it has one.
abbrev pub address_of : Result (List (Option String)) → String
address_of (ok (some ip ∷ rest)) = ip
address_of reply = ""

-- The private address after the details, from the last value that was found.
abbrev pub IsPrivate : Option (Option String) → String → String → Type 0
IsPrivate none before after = after ≡ before
IsPrivate (some v) before after = v ≡ some after

IsPrivate-found :
    (o : Option (Option String)) (ip before after : String)
    → IsPrivate o ip after
    → IsPrivate (or_last o (some (some ip))) before after
IsPrivate-found none ip before after h = ap some (sym h)
IsPrivate-found (some w) ip before after h = h

module _ {S V : Type 0} (db : Gorm S) (cloud : Cloud S) (f : FuncManager) (now : S → ℕ × S)
    (view : S → V)
    (interfaces_keep : (id : String) (s : S)
      → view (cloud.describe_network_interfaces id s).1 ≡ view s) where
  -- The public address, from the last interface that was found: AWS names it.
  abbrev pub IsPublic : Option (Option String) → String → String → Type 0
  IsPublic none before after = after ≡ before
  IsPublic (some none) before after = ⊥
  IsPublic (some (some id)) before after =
      (t : S) × (after ≡ address_of (cloud.describe_network_interfaces id t).0)

  IsPublic-found :
      (o : Option (Option String)) (id ip before after : String) (t : S)
      → ip ≡ address_of (cloud.describe_network_interfaces id t).0
      → IsPublic o ip after
      → IsPublic (or_last o (some (some id))) before after
  IsPublic-found none id ip before after t named h = (t, h ∙ named)
  IsPublic-found (some none) id ip before after t named h = absurd h
  IsPublic-found (some (some id')) id ip before after t named h = h

  public_address :
      (id : String) (s : S)
      → (get_public_ipv4 cloud f.aws_client id s).1 ≡ (cloud.describe_network_interfaces id s).1
  unfolding get_public_ipv4
  public_address id s = refl

  -- What the loop over the details finds.
  abbrev pub Reads : Details → String × String → S → Exit (String × String) × S → Type 0
  Reads details ips s (returns ips', t) =
      IsPublic (last_named "networkInterfaceId" details) ips.0 ips'.0
      × IsPrivate (last_named "privateIPv4Address" details) ips.1 ips'.1
      × (view t ≡ view s)
  Reads details ips s (fails e, t) = ⊥
  Reads details ips s (panics message, t) =
      ((name : String) × ((name ≡ "networkInterfaceId") ⊎ (name ≡ "privateIPv4Address"))
        × Memᴰ (some name, none) details)
      × (view t ≡ view s)

  Reads-after :
      (details details' : Details) (ips ips' : String × String) (s t : S)
      (x : Exit (String × String) × S)
      → view t ≡ view s
      → ((name : String) → Memᴰ (some name, none) details → Memᴰ (some name, none) details')
      → ((after : String × String)
          → IsPublic (last_named "networkInterfaceId" details) ips.0 after.0
          → IsPublic (last_named "networkInterfaceId" details') ips'.0 after.0)
      → ((after : String × String)
          → IsPrivate (last_named "privateIPv4Address" details) ips.1 after.1
          → IsPrivate (last_named "privateIPv4Address" details') ips'.1 after.1)
      → Reads details ips t x
      → Reads details' ips' s x
  Reads-after details details' ips ips' s t (returns after, u) same m p q (h, h', kept) =
      (p after h, q after h', kept ∙ same)
  Reads-after details details' ips ips' s t (fails e, u) same m p q h = absurd h
  Reads-after details details' ips ips' s t (panics message, u) same m p q
        ((name, n, found), kept) =
      ((name, n, m name found), kept ∙ same)

  private_is_other :
      (name : String)
      → (name == "networkInterfaceId") ≡ true
      → (name == "privateIPv4Address") ≡ false
  private_is_other name e =
      subst (λ n. (n == "privateIPv4Address") ≡ false)
        (sym ((string_keys.same_iff name "networkInterfaceId").0 e)) refl

  abbrev go_on : Details → Exit (String × String) × S → Exit (String × String) × S
  go_on rest x = proceed x.0 (read_details db cloud f now rest) x.1

  named-Reads :
      (name : String) (v : Option String) (rest : Details) (ips : String × String) (s : S)
      (b b' : Bool)
      → (name == "networkInterfaceId") ≡ b
      → (name == "privateIPv4Address") ≡ b'
      → ((ips' : String × String) (t : S)
          → Reads rest ips' t (read_details db cloud f now rest ips' t))
      → Reads ((some name, v) ∷ rest) ips s (go_on rest (read_detail db cloud f now b b' v ips s))
  unfolding read_detail get_public_ipv4
  named-Reads name none rest ips s true b' e e' later =
      ((name, inl ((string_keys.same_iff name "networkInterfaceId").0 e), Memᴰ.head refl), refl)
  named-Reads name (some id) rest ips s true b' e e' later =
      let reply = cloud.describe_network_interfaces id s in
      let ip = ip_or_empty db cloud f now (get_public_ipv4 cloud f.aws_client id s).0 in
      let other = private_is_other name e in
      Reads-after rest ((some name, some id) ∷ rest) (ip, ips.1) ips s reply.1 _
        (interfaces_keep id s) (λ n. Memᴰ.tail)
        (λ after h. rw e (IsPublic-found _ id ip ips.0 after.0 s (named_ip reply.0) h))
        (λ after h. rw (other, or_last-none) h) (later (ip, ips.1) reply.1)
    where
      named_ip :
          (r : Result (List (Option String)))
          → ip_or_empty db cloud f now (public_of cloud f.aws_client r) ≡ address_of r
      named_ip (ok []) = refl
      named_ip (ok (none ∷ l)) = refl
      named_ip (ok (some ip ∷ l)) = refl
      named_ip (err m) = refl
  named-Reads name none rest ips s false true e e' later =
      ((name, inr ((string_keys.same_iff name "privateIPv4Address").0 e'), Memᴰ.head refl), refl)
  named-Reads name (some ip) rest ips s false true e e' later =
      Reads-after rest ((some name, some ip) ∷ rest) (ips.0, ip) ips s s _ refl (λ n. Memᴰ.tail)
        (λ after h. rw (e, or_last-none) h)
        (λ after h. rw e' (IsPrivate-found _ ip ips.1 after.1 h)) (later (ips.0, ip) s)
  named-Reads name v rest ips s false false e e' later =
      Reads-after rest ((some name, v) ∷ rest) ips ips s s _ refl (λ n. Memᴰ.tail)
        (λ after h. rw (e, or_last-none) h) (λ after h. rw (e', or_last-none) h) (later ips s)

  pub read_details-Reads :
      (details : Details) (ips : String × String) (s : S)
      → Reads details ips s (read_details db cloud f now details ips s)
  unfolding read_details
  read_details-Reads [] ips s = (refl, refl, refl)
  read_details-Reads ((none, v) ∷ rest) ips s =
      Reads-after rest ((none, v) ∷ rest) ips ips s s _ refl (λ n. Memᴰ.tail) (λ after h. h)
        (λ after h. h) (read_details-Reads rest ips s)
  read_details-Reads ((some name, v) ∷ rest) ips s =
      named-Reads name v rest ips s (name == "networkInterfaceId") (name == "privateIPv4Address")
        refl refl (read_details-Reads rest)
