-- ===== src/Hook/Files.antt =====
-- `fopen` of socket_hook.c: the pathname that it hands to the original function.
use socket_hook.Base.{
  ℕ, Bool, not, ◌||◌, if◌then◌else◌, Option, none, some, List, [], ◌∷◌, ◌++◌, take,
}
use socket_hook.Hook.State.{Server, is_dcmqrscp}
use socket_hook.Hook.Init.Constructor.{starts_with}

-- "./dcmqrscp", ".cfg" and "_", as ASCII codes.
abbrev pub config_stem : List ℕ
config_stem = 46 ∷ 47 ∷ 100 ∷ 99 ∷ 109 ∷ 113 ∷ 114 ∷ 115 ∷ 99 ∷ 112 ∷ []

abbrev pub config_ending : List ℕ
config_ending = 46 ∷ 99 ∷ 102 ∷ 103 ∷ []

abbrev pub underscore : ℕ
underscore = 95

-- snprintf(new_pathname, 20, "./dcmqrscp_%s.cfg", parallel_id) keeps 19 characters.
unfoldable pub new_pathname : List ℕ → List ℕ
new_pathname parallel_id = take 19 (config_stem ++ underscore ∷ parallel_id ++ config_ending)

-- USE_PARALLEL and parallel_id come first.
unfoldable pub fopen : Bool → Option (List ℕ) → Server → List ℕ → List ℕ
unfolding new_pathname
fopen use_parallel parallel_id server pathname =
    if not use_parallel
      || not (is_dcmqrscp server)
      || not (starts_with pathname (config_stem ++ config_ending))
    then pathname
    else elim parallel_id [ none ↦ pathname | some id ↦ new_pathname id ]
