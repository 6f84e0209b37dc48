-- ===== src/Constants.antt =====
-- pkg/constants/instancetype.go: the enumeration of launch types, its two string tables, and its
-- conversions from YAML, from and to a database column.
pub mod RoundTrip
use Prim.Native.String.{◌++◌}
use pixels_spike.Base.{List, [], ◌∷◌, Option, none, some, String, Result, ok, err}
use pixels_spike.Base.Keys.{Key, lookup, string_keys}

-- The constants; in Go the type is an int.
pub data InstanceType : Type 0 where
  un_know ec2 fargate fargate_spot : InstanceType

abbrev pub str_to_instance_type : List (String × InstanceType)
str_to_instance_type =
    ("EC2", InstanceType.ec2)
    ∷ ("Fargate", InstanceType.fargate)
    ∷ ("FargateSpot", InstanceType.fargate_spot)
    ∷ []

-- The map `instanceType2Str`, which has no entry for `UnKnow`.
abbrev pub instance_type_to_str : InstanceType → Option String
instance_type_to_str InstanceType.un_know = none
instance_type_to_str InstanceType.ec2 = some "EC2"
instance_type_to_str InstanceType.fargate = some "Fargate"
instance_type_to_str InstanceType.fargate_spot = some "FargateSpot"

abbrev or_invalid : String → String → Option InstanceType → Result InstanceType
or_invalid message s none = err (message ++ s)
or_invalid message s (some t) = ok t

-- The argument is the outcome of decoding the node into a string.
unfoldable pub unmarshal_yaml : Result String → Result InstanceType
unmarshal_yaml (err e) = err ("failed to decode InstanceType: " ++ e)
unmarshal_yaml (ok s) = or_invalid "invalid InstanceType: " s (lookup s str_to_instance_type)

abbrev or_un_know : Option String → String
or_un_know none = "UnKnow"
or_un_know (some s) = s

-- The method `String`.
unfoldable pub to_string : InstanceType → String
to_string i = or_un_know (instance_type_to_str i)

-- What a database driver hands to `Scan`: a string, the bytes of one, or a value of another type,
-- given by the name of that type.
pub data DriverValue : Type 0 where
  text bytes : String → DriverValue
  other : String → DriverValue

unfoldable pub scan : DriverValue → Result InstanceType
scan (DriverValue.text v) =
    or_invalid "invalid InstanceType value: " v (lookup v str_to_instance_type)
scan (DriverValue.bytes v) =
    or_invalid "invalid InstanceType value: " v (lookup v str_to_instance_type)
scan (DriverValue.other name) = err ("InstanceType should be a string or []byte, got " ++ name)

abbrev or_no_value : Option String → Result DriverValue
or_no_value none = err "invalid InstanceType value"
or_no_value (some s) = ok (DriverValue.text s)

unfoldable pub value : InstanceType → Result DriverValue
value i = or_no_value (instance_type_to_str i)
