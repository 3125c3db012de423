-- ===== src/Dma/Sysfs.antt =====
-- The readers of sysfs in apps/stream-from-file-app/files/dma-api.c: the physical address and the size of
-- a buffer.
use Prim.Native.String.{String}
use thesis_software.Base.{
  ℕ, ◌≡◌, refl, ◌%◌, ◌^◌, ◌⊎◌, inl, inr, Option, none, some, List, [], ◌∷◌, ◌++◌, take, drop,
  length,
}
use thesis_software.Base.Int.{ℤ, pos}
use thesis_software.World.{Env, Trace, opened, closed, Act}

-- `strtoull` in base 0: a number, one that is out of range, or none.
pub data Parsed : Type 0 where
  number : ℕ → Parsed
  out_of_range : Parsed
  no_number : Parsed

-- What the C library makes of a text, and of the index of a buffer: its two paths. `dec` is `sscanf` with
-- "%d", where it finds a number.
pub record Texts : Type 0 where
  pub parse : List ℕ → Parsed
  pub dec : List ℕ → Option ℕ
  -- the 1024 bytes of `buf` before they are read into
  pub stack : List ℕ
  pub phys_addr_path : ℕ → String
  pub size_path : ℕ → String

abbrev pub parsed_number : Parsed → Option ℕ
parsed_number (number v) = some (v % 2 ^ 64)
parsed_number out_of_range = none
parsed_number no_number = none

-- With what `read` gives, up to 1023 bytes; an empty text and a failure are -1, as `none`.
unfoldable pub sysfs_number : Texts → Option (List ℕ) → Option ℕ
sysfs_number texts none = none
sysfs_number texts (some []) = none
sysfs_number texts (some (b ∷ bs)) = parsed_number (texts.parse (take 1023 (b ∷ bs)))

unfoldable pub sysfs_opened : Env → Texts → String → Option ℕ → Act (Option ℕ)
sysfs_opened env texts path none t = (none, t)
sysfs_opened env texts path (some fd) t = (sysfs_number texts (env.sysfs t path), closed fd ∷ t)

-- `read_file_u64`: what it stores.
unfoldable pub sysfs_u64 : Env → Texts → String → Act (Option ℕ)
sysfs_u64 env texts path t =
    let fd = env.open_file t path in sysfs_opened env texts path fd (opened path fd ∷ t)

abbrev pub or_old : ℕ → Option ℕ → ℕ
or_old old none = old
or_old old (some v) = v

-- What is returned, and the variable behind the pointer, which held `old`; the pointer is never `NULL`.
unfoldable pub get_phy_addr : Env → Texts → ℕ → ℕ → Act (ℤ × ℕ)
get_phy_addr env texts index old t =
    let r = sysfs_u64 env texts (texts.phys_addr_path index) t in ((pos 0, or_old old r.0), r.1)

-- `buf` behind the `read`, whose result is not looked at: what was there before is left behind the bytes
-- that came, and is all there is where it failed.
abbrev pub filled : List ℕ → Option (List ℕ) → List ℕ
filled buf none = buf
filled buf (some bs) = let now = take 1024 bs in now ++ drop (length now) buf

-- `read_file_u32` and `getBufSize`; `none` is `exit(1)`.
abbrev pub found : Texts → ℕ → Option (List ℕ) → ℕ
found texts old r = or_old old (texts.dec (filled texts.stack r))

unfoldable pub size_opened : Env → Texts → String → ℕ → Option ℕ → Act (Option (ℤ × ℕ))
size_opened env texts path old none t = (none, t)
size_opened env texts path old (some fd) t =
    (some (pos 0, found texts old (env.sysfs t path) % 2 ^ 32), closed fd ∷ t)

unfoldable pub get_buf_size : Env → Texts → ℕ → ℕ → Act (Option (ℤ × ℕ))
get_buf_size env texts index old t =
    let path = texts.size_path index in
    let fd = env.open_file t path in size_opened env texts path old fd (opened path fd ∷ t)

-- `getPhyAddr` reports success whatever happens. Where the file cannot be opened or holds no number that
-- fits, the variable keeps what it held: no caller can tell a failure from an address.
get_phy_addr-silent :
    (env : Env) (texts : Texts) (index old : ℕ) (t : Trace)
    → ((env.open_file t (texts.phys_addr_path index) ≡ none)
        ⊎ ((t' : Trace) → sysfs_number texts (env.sysfs t' (texts.phys_addr_path index)) ≡ none))
    → (get_phy_addr env texts index old t).0 ≡ (pos 0, old)
unfolding get_phy_addr sysfs_u64 sysfs_opened
get_phy_addr-silent env texts index old t (inl no_file) = rw no_file refl
get_phy_addr-silent env texts index old t (inr no_text) =
    go (env.open_file t (texts.phys_addr_path index))
  where
    go :
        (fd : Option ℕ)
        → ◌≡◌ {A = ℤ × ℕ}
            (
              pos 0,
              or_old old
                  (sysfs_opened env texts
                    (texts.phys_addr_path index)
                    fd
                    (opened (texts.phys_addr_path index) fd ∷ t)).0,
            )
            (pos 0, old)
    go none = refl
    go (some fd) = rw (no_text (opened (texts.phys_addr_path index) (some fd) ∷ t)) refl
