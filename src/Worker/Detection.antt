-- ===== src/Worker/Detection.antt =====
-- src/worker/src/objectdetection.cpp, the detector of emulation mode, and src/worker/src/main.cpp,
-- which chooses between it and the neural network.
use mathlib.Core.List.{
  Perm, Mem, mem-cons, mem-cons_self, mem-cons_of_mem, not-mem-nil, mem-append_left,
}
use mathlib.Core.List.Perm
use mathlib.Core.Logic.Or
use crowdsensing.Common.{
  ℕ, zero, suc, ◌≤◌, ◌≡◌, ◌≢◌, refl, not, List, [], ◌∷◌, ◌++◌, Option, Bytes, codes, Result, ok,
  err, no_element, arith, length, same, same_iff, if◌then◌else◌, ◌>>=◌, subst, sym, ◌∙◌, ap,
  Bool-cases, inl, inr,
}
use crowdsensing.Worker.Parameter.{Variables, Outcome, returns, exits, parse, initial}

-- The constructor, on the lines of `coco.names`.
unfoldable pub emulate_classes : List Bytes → List Bytes
emulate_classes [] = []
emulate_classes (line ∷ lines) =
    if not (same line (codes "person")) then line ∷ emulate_classes lines else emulate_classes lines

-- `std::copy_n`, which reads past the end of a range that is too short.
unfoldable pub copy_n : ℕ → List Bytes → Result (List Bytes)
copy_n zero xs = ok []
copy_n (suc n) [] = err no_element
copy_n (suc n) (x ∷ xs) = copy_n n xs >>= λ ys. ok (x ∷ ys)

-- `detect` on the classes in the order that `std::shuffle` has left them in: that order is kept, and
-- the first ten go behind the caller's list.
unfoldable pub detect : List Bytes → List Bytes → Result (List Bytes × List Bytes)
unfolding copy_n
detect shuffled result = copy_n 10 shuffled >>= λ picked. ok (shuffled, result ++ picked)

-- `detector_ptr` of the worker's `main`.
pub data Detector : Type 0 where
  emulate : Detector
  dnn : Bytes → Detector

-- The detector and the content descriptor that the worker is run with.
unfoldable pub main : (List Bytes → Option Variables) → List Bytes → Outcome (Detector × Bytes)
unfolding parse
main parse_command_line args = elim (parse parse_command_line args initial) [
  | exits status ↦ exits status
  | returns p ↦ returns (if p.is_emulation_mode then emulate else dnn p.dummy_file, p.cd)
]

-- What is left of the names is in the file, and is no person.
mem-emulate_classes :
    (lines : List Bytes) (c : Bytes)
    → Mem c (emulate_classes lines)
    → Mem c lines × (c ≢ codes "person")
unfolding emulate_classes
mem-emulate_classes [] c m = absurd (not-mem-nil m)
mem-emulate_classes (line ∷ lines) c m = elim (Bool-cases (same line (codes "person"))) [
  | inl person ↦
      let later = mem-emulate_classes lines c (rw (person, emulate_classes) at m) in
      (mem-cons_of_mem line later.0, later.1)
  | inr other ↦
      Or.elim (hlevel) (mem-cons.0 (rw (other, emulate_classes) at m))
        (λ e. (
          subst (λ x. Mem c (x ∷ lines)) e mem-cons_self,
          λ p. ground (arith, other, (same_iff line (codes "person")).1 (sym e ∙ p)),
        ))
        (λ m'.
          let later = mem-emulate_classes lines c m' in (mem-cons_of_mem line later.0, later.1))
]

copy_n_enough :
    (n : ℕ) (xs : List Bytes)
    → n ≤ length xs
    → (ys rest : List Bytes) × (copy_n n xs ≡ ok ys) × (length ys ≡ n) × (xs ≡ ys ++ rest)
unfolding copy_n
copy_n_enough zero xs h = ([], xs, refl, refl, refl)
copy_n_enough (suc n) [] h = absurd (omega arith)
copy_n_enough (suc n) (x ∷ xs) h =
    let (ys, rest, done, count, whole) = copy_n_enough n xs (omega arith) in
    (x ∷ ys, rest, rw (done, copy_n), ap suc count, ap (◌∷◌ x) whole)

-- Whatever order the shuffle leaves the classes in, if there are ten or more, ten are reported,
-- each of them a line of the file and none of them a person.
pub detect_ten :
    (lines shuffled : List Bytes)
    → Perm shuffled (emulate_classes lines)
    → 10 ≤ length shuffled
    → (picked : List Bytes) × (detect shuffled [] ≡ ok (shuffled, picked))
      × (length picked ≡ 10)
      × ((c : Bytes) → Mem c picked → Mem c lines × (c ≢ codes "person"))
unfolding detect
detect_ten lines shuffled p h =
    let (picked, rest, done, count, whole) = copy_n_enough 10 shuffled h in
    (
      picked,
      rw (done, detect),
      count,
      λ c m. mem-emulate_classes lines c ((Perm.mem_iff p).0 (rw whole (mem-append_left rest m))),
    )
