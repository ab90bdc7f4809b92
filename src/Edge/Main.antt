-- ===== src/Edge/Main.antt =====
-- src/edge/src/main.cpp and `Producer::run`: the option that selects the mode, and the handler that
-- the mode registers. `getopt` is not part of the repository: its result is an argument, `none` for
-- its -1.
use crowdsensing.OpenCv.{OpenCv}
use crowdsensing.Edge.Dnn.{Dnn, dnn}
use crowdsensing.Common.{
  List, [], Bytes, Result, ok, err, Fault, Result-cases, ap, ◌∙◌, refl, ◌≢◌, ℕ, ◌<◌, ◌≡◌, ◌⊎◌, inl,
  inr, Bool, true, false, not, Option, none, some, arith, ltb, ◌==◌, if◌then◌else◌, Bool-cases,
}
use crowdsensing.Libraries.{Libraries}
use crowdsensing.Edge.Producer.State.{State, producer}

-- Which handler is registered for `/icn2020/edge`.
pub data Handler : Type 0 where
  on_interest_cloud on_interest no_handler : Handler

unfoldable pub run : {lib : Libraries} → State lib → Handler
run s =
    if s.edge_mode == b'c'
    then on_interest_cloud
    else if s.edge_mode == b'e'
    then on_interest
    else no_handler

-- How `main` goes on: it ends with a status, it runs a producer with its detector, or it catches an
-- exception of the detector's constructor, which it writes to the log before it ends with status 0.
pub data End (cv : OpenCv) (lib : Libraries) : Type 0 where
  returns : ℕ → End cv lib
  runs : State lib → Dnn cv → End cv lib
  catches : Fault → End cv lib

is_mode : Option ℕ → Bool
is_mode none = false
is_mode (some c) = if c == b'c' then true else c == b'e'

module _ (cv : OpenCv) (lib : Libraries) where
  abbrev constructed : ℕ → Result (Dnn cv) → End cv lib
  constructed c (ok d) = runs (producer lib c) d
  constructed c (err e) = catches e

  -- The detector and the producer; the dummy file's name is empty.
  abbrev run_mode : Option ℕ → List Bytes → End cv lib
  run_mode none lines = returns 2
  run_mode (some c) lines = constructed c (dnn cv [] lines)

  -- The last argument is the lines of `coco.names`.
  unfoldable pub main : ℕ → Option ℕ → List Bytes → End cv lib
  unfolding is_mode
  main argc getopt lines =
      if ltb argc 2
      then returns 1
      else if not (is_mode getopt)
      then returns 2
      else run_mode getopt lines

  -- The option that selects this handler.
  abbrev pub option_of : Handler → Option ℕ
  option_of on_interest_cloud = some b'c'
  option_of on_interest = some b'e'
  option_of no_handler = none

  main_mode :
      (argc c : ℕ) (lines : List Bytes)
      → ltb argc 2 ≡ false
      → is_mode (some c) ≡ true
      → main argc (some c) lines ≡ constructed c (dnn cv [] lines)
  unfolding main
  main_mode argc c lines enough mode = rw (enough, mode, main) refl

  -- Without an argument `main` ends with status 1, with another option than `-c` and `-e` with
  -- status 2. Otherwise the detector is constructed, for the camera. If that succeeds, `main` runs a
  -- producer with this detector, which registers the handler of the option, cloud for `-c` and edge
  -- for `-e`; if it fails, the exception is caught, and there is no producer.
  pub main-run :
      (argc : ℕ) (getopt : Option ℕ) (lines : List Bytes)
      → ((argc < 2) × (main argc getopt lines ≡ returns 1))
        ⊎ ((1 < argc)
            × (getopt ≢ some b'c')
            × (getopt ≢ some b'e')
            × (main argc getopt lines ≡ returns 2))
        ⊎ ((f : Handler) × (1 < argc)
            × (f ≢ no_handler)
            × (getopt ≡ option_of f)
            × (((s : State lib) × (d : Dnn cv) × (dnn cv [] lines ≡ ok d)
                  × (main argc getopt lines ≡ runs s d)
                  × (run s ≡ f))
                ⊎ ((e : Fault) × (dnn cv [] lines ≡ err e) × (main argc getopt lines ≡ catches e))))
  unfolding run producer main is_mode
  main-run argc none lines = ground arith
  main-run argc (some c) lines = elim (Bool-cases (ltb argc 2)) [
    | inl few ↦ inl (ground (arith, few), ground (arith, few))
    | inr enough ↦ elim (Bool-cases (c == b'c')) [
      | inl cloud ↦
          let made =
            started argc c lines enough (ground (arith, cloud)) on_interest_cloud
              (ground (arith, cloud)) in
          inr
            (inr (on_interest_cloud, ground (arith, enough), λ z. cc, ground (arith, cloud), made))
      | inr other ↦ elim (Bool-cases (c == b'e')) [
        | inl edge ↦
            let made =
              started argc c lines enough (ground (arith, edge)) on_interest
                (ground (arith, edge)) in
            inr (inr (on_interest, ground (arith, enough), λ z. cc, ground (arith, edge), made))
        | inr neither ↦ inr (
            inl (
              ground (arith, enough),
              ground (arith, other),
              ground (arith, neither),
              ground (arith, enough, other, neither),
            ))
      ]
    ]
  ]
    where
      started :
          (argc c : ℕ) (lines : List Bytes)
          → ltb argc 2 ≡ false
          → is_mode (some c) ≡ true
          → (f : Handler) → run (producer lib c) ≡ f
          → ((s : State lib) × (d : Dnn cv) × (dnn cv [] lines ≡ ok d)
              × (main argc (some c) lines ≡ runs s d)
              × (run s ≡ f))
            ⊎ ((e : Fault) × (dnn cv [] lines ≡ err e) × (main argc (some c) lines ≡ catches e))
      started argc c lines enough mode f registers = elim (Result-cases (dnn cv [] lines)) [
        | inl (d, made) ↦ inl (
          producer lib c,
          d,
          made,
          main_mode argc c lines enough mode ∙ ap (constructed c) made,
          registers,
        )
        | inr (e, fails) ↦
            inr (e, fails, main_mode argc c lines enough mode ∙ ap (constructed c) fails)
      ]
