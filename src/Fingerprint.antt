-- ===== src/Fingerprint.antt =====
-- crates/proef-core/src/fingerprint.rs: the fingerprint of a run's inputs. Bytes are numbers below
-- 256, a `u64` is a number below 2 ^ 64.
mod Framing
mod Tests
use Prim.Native.Nat.{bit_xor}
use proef.Base.{
  ℕ, zero, suc, ◌+◌, ◌*◌, ◌/◌, ◌%◌, ◌^◌, Bool, List, [], ◌∷◌, ◌++◌, length, ◌==◌, ltb,
  if◌then◌else◌,
}

abbrev pub Bytes : Type 0
Bytes = List ℕ

abbrev pub fnv_prime : ℕ
fnv_prime = 1099511628211

abbrev pub fnv1a_offset_basis : ℕ
fnv1a_offset_basis = 14695981039346656037

unfoldable pub fnv1a_with : Bytes → ℕ → ℕ
fnv1a_with [] hash = hash
fnv1a_with (b ∷ bytes) hash = fnv1a_with bytes (bit_xor hash b * fnv_prime % 2 ^ 64)

-- `to_le_bytes` of a number with so many bytes.
unfoldable pub le_bytes : ℕ → ℕ → Bytes
le_bytes zero n = []
le_bytes (suc k) n = n % 256 ∷ le_bytes k (n / 256)

-- The buffer of `of`: every part behind its length.
unfoldable pub frame : List Bytes → Bytes
unfolding le_bytes
frame [] = []
frame (part ∷ parts) = le_bytes 8 (length part % 2 ^ 64) ++ part ++ frame parts

-- A digit of `{:x}`.
unfoldable pub hex_digit : ℕ → ℕ
hex_digit d = if ltb d 10 then 48 + d else 87 + d

-- `{:016x}`, from the last digit on: so many digits, in front of a text.
unfoldable pub hex : ℕ → ℕ → List ℕ → List ℕ
unfolding hex_digit
hex zero n after = after
hex (suc digits) n after = hex digits (n / 16) (hex_digit (n % 16) ∷ after)

unfoldable pub of_parts : List Bytes → List ℕ
unfolding frame fnv1a_with hex
of_parts parts =
    let buf = frame parts in
    hex 16 (fnv1a_with buf fnv1a_offset_basis) (hex 16 (fnv1a_with buf 11400714819323198485) [])
