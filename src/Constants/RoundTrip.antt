-- ===== src/Constants/RoundTrip.antt =====
-- pkg/constants/instancetype.go: what `Value` writes, `Scan` reads back.
use pixels_spike.Base.{◌≡◌, refl, subst, ◌↔◌, ◌≢◌, arith, String, Result, ok, err}
use pixels_spike.Base.Keys.{lookup, string_keys}
use pixels_spike.Constants.{InstanceType, DriverValue, unmarshal_yaml, to_string, scan, value}
use text.Mathlib.TextEquality.{eq_iff}

abbrev IsReadAs : InstanceType → String → Type 0
IsReadAs i s =
    (scan (DriverValue.text s) ≡ ok i) × (scan (DriverValue.bytes s) ≡ ok i) × (to_string i ≡ s)

text_injective : (a b : String) → ok (DriverValue.text a) ≡ ok (DriverValue.text b) → a ≡ b
text_injective a b h = ground arith

-- Whatever `Value` writes to the column, `Scan` reads back as the same launch type, from a string
-- and from bytes alike; and the text is the one that `String` prints.
pub scan-value :
    (i : InstanceType) (s : String)
    → value i ≡ ok (DriverValue.text s)
    → (scan (DriverValue.text s) ≡ ok i) × (scan (DriverValue.bytes s) ≡ ok i) × (to_string i ≡ s)
unfolding value scan to_string lookup
scan-value InstanceType.un_know s h = absurd (cc)
scan-value InstanceType.ec2 s h =
    subst (IsReadAs InstanceType.ec2) (text_injective _ s h) (refl, refl, refl)
scan-value InstanceType.fargate s h =
    subst (IsReadAs InstanceType.fargate) (text_injective _ s h) (refl, refl, refl)
scan-value InstanceType.fargate_spot s h =
    subst (IsReadAs InstanceType.fargate_spot) (text_injective _ s h) (refl, refl, refl)

-- Whatever text `Scan` accepts, it accepts with a launch type that `Value` writes as that same
-- text, and that the configuration file may name by it.
pub value-scan :
    (i : InstanceType) (s : String)
    → scan (DriverValue.text s) ≡ ok i
    → (value i ≡ ok (DriverValue.text s)) × (unmarshal_yaml (ok s) ≡ ok i)
unfolding value scan unmarshal_yaml lookup
value-scan i s h = ground (arith, eq_iff "EC2" s, eq_iff "Fargate" s, eq_iff "FargateSpot" s)

value-eq-err :
    (i : InstanceType) → (value i ≡ err "invalid InstanceType value") ↔ (i ≡ InstanceType.un_know)
unfolding value
value-eq-err InstanceType.un_know = (λ _. refl, λ _. refl)
value-eq-err i = (λ h. cc, λ h. cc)

scan-ne : (v : DriverValue) → scan v ≢ ok InstanceType.un_know
unfolding scan lookup
scan-ne (DriverValue.other name) = λ h. cc
scan-ne v = λ h. ground arith

unmarshal-ne : (r : Result String) → unmarshal_yaml r ≢ ok InstanceType.un_know
unfolding unmarshal_yaml lookup
unmarshal-ne (err e) = λ h. cc
unmarshal-ne (ok s) = λ h. ground arith

-- The zero value `UnKnow` is the only launch type that cannot be stored, and no text is scanned
-- or configured to it.
pub un_know-unstorable :
    (i : InstanceType)
    → ((value i ≡ err "invalid InstanceType value") ↔ (i ≡ InstanceType.un_know))
      × ((v : DriverValue) → scan v ≢ ok InstanceType.un_know)
      × ((r : Result String) → unmarshal_yaml r ≢ ok InstanceType.un_know)
un_know-unstorable i = (value-eq-err i, scan-ne, unmarshal-ne)
