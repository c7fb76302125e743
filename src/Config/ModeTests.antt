-- ===== src/Config/ModeTests.antt =====
-- The warning about the mode of a configuration file, on some modes.
use knockd.Prelude.{◌≡◌, refl, none, some, bytes, ◌++◌, [], ◌∷◌}
use knockd.Config.Mode.{warn_if_world_readable, is_shared}

-- A regular file of mode 0600.
owner_only : warn_if_world_readable (bytes "a.conf") (some 33152) ≡ none
unfolding warn_if_world_readable is_shared
owner_only = refl

-- Mode 0711 lets others run the file, but neither read nor write it.
runnable : warn_if_world_readable (bytes "a.conf") (some 33225) ≡ none
unfolding warn_if_world_readable is_shared
runnable = refl

-- Mode 0644.
readable :
    warn_if_world_readable (bytes "a.conf") (some 33188)
    ≡ some (
        bytes "Config: a.conf is readable or writable by users other than its owner (mode 0644) "
        ++ ((226 ∷ 128 ∷ 148 ∷ []) ++ bytes " it holds the knock sequence. Run: chmod 600 a.conf"))
unfolding warn_if_world_readable is_shared
readable = refl
