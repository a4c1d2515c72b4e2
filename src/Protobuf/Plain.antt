-- ===== src/Protobuf/Plain.antt =====
-- An instance of the protobuf interface that meets its laws: a message is its descriptor and its
-- bytes. Tests run on it.
use at_work_central_factory.Common.{
  ℕ, ◌≡◌, refl, String, Option, none, some, List, [], ◌∷◌, ◌++◌, length, take, take-append, str_eq,
  str_eq_iff, if◌then◌else◌, arith,
}
use at_work_central_factory.Common.Int.{ℤ, pos, negsuc}
use at_work_central_factory.Protobuf.{CompType, Protobuf, ProtobufLaws}

pub record Descriptor : Type 0 where
  pub name : String
  pub comp : Option CompType

pub record Message : Type 0 where
  pub desc : Descriptor
  pub bytes : List ℕ

unfoldable pub pool_find : List Descriptor → String → Option Descriptor
pool_find [] n = none
pool_find (d ∷ pool) n = if str_eq d.name n then some d else pool_find pool n

pool_find_name :
    (pool : List Descriptor) (n : String) (d : Descriptor) → pool_find pool n ≡ some d → d.name ≡ n
unfolding pool_find
pool_find_name [] n d h = cc
pool_find_name (e ∷ pool) n d h = ground (arith, str_eq_iff e.name n, pool_find_name pool n d)

abbrev pub parse : Message → List ℕ → ℤ → Option Message
parse m bytes (pos n) = some (record m { bytes = take n bytes })
parse m bytes (negsuc n) = none

-- The pool is that of the generated types; there is no proto path.
abbrev pub plain : List Descriptor → Protobuf Descriptor Message
plain pool = record {
  full_name = λ d. d.name;
  comp_type = λ d. d.comp;
  find_generated = pool_find pool;
  find_imported = λ n. none;
  prototype = λ d. record { desc = d; bytes = [] };
  descriptor = λ m. m.desc;
  type_name = λ m. m.desc.name;
  fresh = λ m. record m { bytes = [] };
  serialize_to_string = λ m. some m.bytes;
  parse_from_array = parse;
}

parse_plain :
    (p m : Message) (bytes rest : List ℕ)
    → p.desc ≡ m.desc
    → some m.bytes ≡ some bytes
    → parse p (bytes ++ rest) (pos (length bytes)) ≡ some m
parse_plain p m bytes rest same e = rw (take-append bytes rest) (ground arith)

pub plain-ProtobufLaws : (pool : List Descriptor) → ProtobufLaws (plain pool)
plain-ProtobufLaws pool = record {
  type_name_full = λ m. refl;
  generated_name = pool_find_name pool;
  imported_name = λ n d h. cc;
  descriptor-prototype = λ d. refl;
  descriptor-fresh = λ m. refl;
  parse-serialize = parse_plain;
}

abbrev pub comp : ℕ → ℕ → Option CompType
comp c t = some (record { comp_id = some (pos c); msg_type = some (pos t) })

abbrev pub beacon : Descriptor
beacon = record { name = "llsf_msgs.BeaconSignal"; comp = comp 2000 1 }

abbrev pub order : Descriptor
order = record { name = "llsf_msgs.OrderInfo"; comp = comp 2000 41 }
