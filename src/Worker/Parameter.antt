-- ===== src/Worker/Parameter.antt =====
-- src/worker/src/parameter.cpp: the command line of the worker. `boost::program_options` is not part
-- of the repository: what it makes of the arguments is a parameter, the value of each option that was
-- given, or `none` when it throws.
use crowdsensing.Common.{
  ℕ, ◌≡◌, ◌↔◌, refl, Bool, true, false, List, [], ◌++◌, Option, none, some, Bytes, codes, arith,
  if◌then◌else◌,
}

pub record Parameter : Type 0 where
  pub cd : Bytes
  pub worker_name : Bytes
  pub location_name : Bytes
  pub time_name : Bytes
  pub dummy_file : Bytes
  pub is_dummy_mode : Bool
  pub is_emulation_mode : Bool

-- The constructor.
abbrev pub initial : Parameter
initial = record {
  cd = codes "/image/location:30123";
  worker_name = codes "/worker01";
  location_name = codes "30123";
  time_name = [];
  dummy_file = [];
  is_dummy_mode = false;
  is_emulation_mode = false;
}

-- A call that returns, or ends the process by `exit(status)`.
pub data Outcome {ℓ} (A : Type ℓ) : Type ℓ where
  returns : A → Outcome A
  exits : ℕ → Outcome A

-- `variables_map`
abbrev pub Variables : Type 0
Variables = Bytes → Option Bytes

abbrev pub given : Option Bytes → Bool
given none = false
given (some v) = true

abbrev pub value_or : Option Bytes → Bytes → Bytes
value_or none d = d
value_or (some v) d = v

-- The assignments, each made if its option was given.
abbrev pub assigned : Variables → Parameter → Parameter
assigned parameters p = record {
  cd = value_or (parameters (codes "cd")) p.cd;
  worker_name = value_or (parameters (codes "worker")) p.worker_name;
  location_name = value_or (parameters (codes "location")) p.location_name;
  time_name = value_or (parameters (codes "time")) p.time_name;
  dummy_file = value_or (parameters (codes "dummy")) p.dummy_file;
  is_dummy_mode = if given (parameters (codes "dummy")) then true else p.is_dummy_mode;
  is_emulation_mode = if given (parameters (codes "emulation")) then true else p.is_emulation_mode;
}

unfoldable pub parse : (List Bytes → Option Variables) → List Bytes → Parameter → Outcome Parameter
parse parse_command_line args p = elim (parse_command_line args) [
  | none ↦ exits 1
  | some parameters ↦
      if given (parameters (codes "help")) then exits 0 else returns (assigned parameters p)
]

-- One line of `print`, laid out by `boost::format`.
abbrev pub line : (Bytes → Bytes → Bytes) → Bytes → Bytes → Bytes
line console_format label value = console_format label value ++ codes "\n"

abbrev pub on_off : Bool → Bytes
on_off true = codes "On"
on_off false = codes "Off"

-- The modes are read from the singleton, the rest from the object.
unfoldable pub print : (Bytes → Bytes → Bytes) → Parameter → Parameter → Bytes
print console_format instance_ p =
    codes "Parameters\n"
    ++ (line console_format (codes "Content descriptor") p.cd
        ++ (line console_format (codes "Worker name") p.worker_name
            ++ (line console_format (codes "Location name") p.location_name
                ++ (line console_format (codes "Time name") p.time_name
                    ++ (line console_format (codes "Dummy mode") (on_off instance_.is_dummy_mode)
                        ++ (line console_format (codes "Emulation mode")
                              (on_off instance_.is_emulation_mode)
                            ++ codes "\n"))))))

-- From the defaults, a command line that parses and asks for no help returns; dummy mode is on
-- exactly when a dummy file was given, which is then its file, emulation mode exactly when its
-- option was, and the content descriptor is the one given or else the default.
pub parse_dummy :
    (parse_command_line : List Bytes → Option Variables) (args : List Bytes) (v : Variables)
    → parse_command_line args ≡ some v
    → v (codes "help") ≡ none
    → (p : Parameter) × (parse parse_command_line args initial ≡ returns p)
      × ((p.is_dummy_mode ≡ true) ↔ (given (v (codes "dummy")) ≡ true))
      × (p.dummy_file ≡ value_or (v (codes "dummy")) [])
      × ((p.is_emulation_mode ≡ true) ↔ (given (v (codes "emulation")) ≡ true))
      × (p.cd ≡ value_or (v (codes "cd")) (codes "/image/location:30123"))
unfolding parse
parse_dummy parse_command_line args v parsed no_help = (
  assigned v initial,
  rw (parsed, parse, no_help),
  (λ h. ground arith, λ h. ground arith),
  refl,
  (λ h. ground arith, λ h. ground arith),
  refl,
)
