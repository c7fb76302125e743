-- ===== src/Config/Mode.antt =====
-- `warn_if_world_readable` of src/config.c: the warning about the mode of the configuration file.
use knockd.Prelude.{
  ℕ, ◌+◌, ◌/◌, ◌%◌, ◌≤◌, ◌≡◌, refl, ◌⊎◌, inl, inr, Bool, true, false, ◌||◌, Option, none, some,
  List, [], ◌∷◌, ◌++◌, ◌==◌, if◌then◌else◌, bytes, arith,
}

-- Whether `mode` has the flag whose value is the power of two `flag`.
abbrev has_flag : ℕ → ℕ → Bool
has_flag mode flag = mode / flag % 2 == 1

-- `st_mode & (S_IRGRP | S_IROTH | S_IWGRP | S_IWOTH)`
unfoldable pub is_shared : ℕ → Bool
is_shared mode = has_flag mode 32 || has_flag mode 4 || has_flag mode 16 || has_flag mode 2

-- `%04o` of `st_mode & 07777`: four octal digits.
abbrev mode_text : ℕ → List ℕ
mode_text mode =
    (48 + mode / 512 % 8) ∷ (48 + mode / 64 % 8) ∷ (48 + mode / 8 % 8) ∷ (48 + mode % 8) ∷ []

-- The text of the warning about `filepath`.
abbrev warning : List ℕ → ℕ → List ℕ
warning filepath mode =
    bytes "Config: "
    ++ (filepath
        ++ (bytes " is readable or writable by users other than its owner (mode "
            ++ (mode_text mode
                ++ (bytes ") "
                    ++ (226 ∷ 128 ∷ 148 ∷ bytes " it holds the knock sequence. Run: chmod 600 ")
                    ++ filepath))))

-- What is logged, if anything; `none` is an `fstat` that fails.
unfoldable pub warn_if_world_readable : List ℕ → Option ℕ → Option (List ℕ)
unfolding is_shared
warn_if_world_readable filepath none = none
warn_if_world_readable filepath (some mode) =
    if is_shared mode then some (warning filepath mode) else none

-- The four flags are the two upper bits of the digits of the group and of the others.
is_shared_lem :
    (mode : ℕ)
    → ((is_shared mode ≡ false) × (mode / 8 % 8 ≤ 1) × (mode % 8 ≤ 1))
      ⊎ ((is_shared mode ≡ true) × ((2 ≤ mode / 8 % 8) ⊎ (2 ≤ mode % 8)))
unfolding is_shared
is_shared_lem mode = ground arith

-- Nothing is said where neither the group nor the others may read or write, and otherwise the warning.
pub warn_if_world_readable_lem :
    (filepath : List ℕ) (mode : ℕ)
    → ((mode / 8 % 8 ≤ 1) × (mode % 8 ≤ 1) × (warn_if_world_readable filepath (some mode) ≡ none))
      ⊎ (((2 ≤ mode / 8 % 8) ⊎ (2 ≤ mode % 8))
          × (warn_if_world_readable filepath (some mode) ≡ some (warning filepath mode)))
unfolding warn_if_world_readable
warn_if_world_readable_lem filepath mode = elim (is_shared_lem mode) [
  | inl p ↦ inl (p.1, p.2, simp p.0 refl)
  | inr p ↦ inr (p.1, simp p.0 refl)
]
