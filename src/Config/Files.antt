-- ===== src/Config/Files.antt =====
-- The reading of key files, certificates and CA files in crates/console-server/src/config.rs. The disk is
-- a parameter.
pub mod Laws
use Prim.Native.Nat.{bit_and}
use muser_console.Base.{
  ℕ, zero, suc, ◌+◌, ◌*◌, Bool, true, false, not, ◌==◌, ltb, leb, ◌&&◌, ◌||◌, Text, List, [], ◌∷◌,
  length, all, reverse, Option, none, some, if◌then◌else◌,
}
use muser_console.Config.Result.{
  ConfigError, unopened, not_regular, wrong_mode, too_long, blank_key, Result, ok, err, ◌>>=◌,
  refuse_if,
}

-- What a path leads to. `bytes` is `none` where the reading fails.
pub record Entry : Type 0 where
  pub is_symlink : Bool
  pub is_file : Bool
  pub mode : ℕ
  pub bytes : Option (List ℕ)

abbrev pub Disk : Type 0
Disk = Text → Option Entry

abbrev pub take : ℕ → List ℕ → List ℕ
take zero bytes = []
take (suc n) [] = []
take (suc n) (b ∷ bytes) = b ∷ take n bytes

-- `file.take(max_bytes).read_to_end(..)`
abbrev pub read_up_to : ℕ → Entry → Result (List ℕ)
read_up_to max_bytes entry = elim entry.bytes [
  | none ↦ err unopened
  | some bytes ↦ ok (take max_bytes bytes)
]

-- The open, which follows no symlink where `nofollow` is set.
abbrev pub open_file : Disk → Text → Bool → Result Entry
open_file disk path nofollow = elim (disk path) [
  | none ↦ err unopened
  | some entry ↦ if nofollow && entry.is_symlink then err unopened else ok entry
]

unfoldable pub read_private_file : Disk → Text → ℕ → Bool → Result (List ℕ)
read_private_file disk path max_bytes exact_0600 = do
  file ← open_file disk path true
  _ ← refuse_if (not file.is_file) not_regular
  _ ← refuse_if (exact_0600 && not (bit_and file.mode 0o7777 == 0o600)) wrong_mode
  _ ← refuse_if (not exact_0600 && not (bit_and (bit_and file.mode 0o7777) 0o77 == 0)) wrong_mode
  read_up_to max_bytes file

-- the length that `metadata` gives
abbrev pub size_of : Entry → ℕ
size_of entry = elim entry.bytes [ none ↦ 0 | some bytes ↦ length bytes ]

unfoldable pub read_regular_file_bounded : Disk → Text → ℕ → Result (List ℕ)
read_regular_file_bounded disk path max_bytes = do
  file ← open_file disk path false
  _ ← refuse_if (not file.is_file) not_regular
  _ ← refuse_if (ltb max_bytes (size_of file)) too_long
  value ← read_up_to (max_bytes + 1) file
  _ ← refuse_if (ltb max_bytes (length value)) too_long
  ok value

-- `u8::is_ascii_whitespace`
abbrev pub is_blank : ℕ → Bool
is_blank b = b == 32 || b == 9 || b == 10 || b == 12 || b == 13

abbrev pub skip_blank : List ℕ → List ℕ
skip_blank [] = []
skip_blank (b ∷ bytes) = if is_blank b then skip_blank bytes else b ∷ bytes

-- `value[start..end]`, from the first byte that is not blank to the last
abbrev pub trimmed : List ℕ → List ℕ
trimmed value = reverse (skip_blank (reverse (skip_blank value)))

unfoldable pub load_key_file : Disk → Text → Result (List ℕ)
unfolding read_private_file
load_key_file disk path = do
  value ← read_private_file disk path 4097 false
  _ ← refuse_if (all is_blank value || ltb 4096 (length value)) blank_key
  ok (trimmed value)
