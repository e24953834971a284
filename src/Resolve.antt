-- ===== src/Resolve.antt =====
-- crates/proef-core/src/resolve.rs: finding the `${…}` references and replacing them pass by pass.
-- What a name stands for is a parameter, with a state (the occurrences of generators, the recorded
-- secrets and warnings) and errors of its own.
mod Scanning
mod References
mod Fixed
pub mod Names
mod Tests
use proef.Base.{
  ℕ, zero, suc, Bool, true, false, Option, none, some, List, [], ◌∷◌, ◌++◌, length, if◌then◌else◌,
}
use proef.Base.Texts.{Text, codes, strip_prefix, split_once_char}

-- What stands before a reference, its name, and what stands after it.
abbrev pub Reference : Type 0
Reference = Text × (Text × Text)

abbrev pub behind : ℕ → Option Reference → Option Reference
behind c none = none
behind c (some (before, rest)) = some (c ∷ before, rest)

-- `${` was found, and this is the text after it.
abbrev pub close : Option (Text × Text) → Option Reference
close none = none
close (some (name, after)) = some ([], (name, after))

-- The first argument is what is left to skip of an escape.
unfoldable pub first_from : ℕ → Text → Option Reference
unfolding strip_prefix split_once_char
first_from k [] = none
first_from (suc k) (c ∷ t) = behind c (first_from k t)
first_from zero (c ∷ t) = elim (strip_prefix (codes "$${") (c ∷ t)) [
  | some _ ↦ behind c (first_from 2 t)
  | none ↦ elim (strip_prefix (codes "${") (c ∷ t)) [
    | some after ↦ close (split_once_char 125 after)
    | none ↦ behind c (first_from zero t)
  ]
]

unfoldable pub first_reference : Text → Option Reference
unfolding first_from
first_reference t = first_from zero t

-- `text.replace("$${", "${")`
unfoldable pub unescape_from : ℕ → Text → Text
unfolding strip_prefix
unescape_from k [] = []
unescape_from (suc k) (c ∷ t) = unescape_from k t
unescape_from zero (c ∷ t) = elim (strip_prefix (codes "$${") (c ∷ t)) [
  | some _ ↦ codes "${" ++ unescape_from 2 t
  | none ↦ c ∷ unescape_from zero t
]

unfoldable pub unescape : Text → Text
unfolding unescape_from
unescape t = unescape_from zero t

abbrev pub max_depth : ℕ
max_depth = 8

pub data Resolved (State Error : Type 0) : Type 0 where
  ok : Text → State → Resolved State Error
  failed : Error → Resolved State Error
  depth_exceeded : Text → Resolved State Error

-- A pass gives the new text, and whether a reference was substituted.
pub data Passed (State Error : Type 0) : Type 0 where
  went : Text → Bool → State → Passed State Error
  stopped : Error → Passed State Error

pub data Lookup (State Error : Type 0) : Type 0 where
  found : Text → State → Lookup State Error
  missing : Error → Lookup State Error

module _ {State Error : Type 0} where
  abbrev pub put_before : Text → Passed State Error → Passed State Error
  put_before front (went t b s) = went (front ++ t) true s
  put_before front (stopped e) = stopped e

  -- The fuel is more than the text has characters, of which every turn takes three at least.
  unfoldable pub pass_from :
      ℕ → (Text → State → Lookup State Error) → Text → State → Passed State Error
  unfolding first_reference
  pass_from zero lookup t s = went t false s
  pass_from (suc fuel) lookup t s = elim (first_reference t) [
    | none ↦ went t false s
    | some (before, (name, after)) ↦ elim (lookup name s) [
      | missing e ↦ stopped e
      | found v s' ↦ put_before (before ++ v) (pass_from fuel lookup after s')
    ]
  ]

  unfoldable pub resolve_pass :
      (Text → State → Lookup State Error) → Text → State → Passed State Error
  unfolding pass_from
  resolve_pass lookup t s = pass_from (suc (length t)) lookup t s

  abbrev pub give_up : Text → State → Option Reference → Resolved State Error
  give_up t s none = ok (unescape t) s
  give_up t s (some (before, (name, after))) = depth_exceeded name

  unfoldable pub resolve_within :
      ℕ → (Text → State → Lookup State Error) → Text → State → Resolved State Error
  unfolding resolve_pass first_reference unescape
  resolve_within zero lookup t s = give_up t s (first_reference t)
  resolve_within (suc passes) lookup t s = elim (resolve_pass lookup t s) [
    | stopped e ↦ failed e
    | went t' true s' ↦ resolve_within passes lookup t' s'
    | went t' false s' ↦ ok (unescape t') s'
  ]

  unfoldable pub resolve : (Text → State → Lookup State Error) → Text → State → Resolved State Error
  unfolding resolve_within
  resolve lookup t s = resolve_within max_depth lookup t s
