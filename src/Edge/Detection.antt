-- ===== src/Edge/Detection.antt =====
-- src/edge/src/objectdetection.cpp, the detector of emulation mode.
use crowdsensing.Common.{
  ℕ, zero, suc, not, List, [], ◌∷◌, ◌++◌, Bytes, codes, Result, ok, err, no_element, same,
  if◌then◌else◌, ◌>>=◌,
}

-- The constructor, on the lines of `coco.names`.
unfoldable pub emulate_classes : List Bytes → List Bytes
emulate_classes [] = []
emulate_classes (line ∷ lines) =
    if not (same line (codes "person")) then line ∷ emulate_classes lines else emulate_classes lines

-- `std::copy_n`, which reads past the end of a range that is too short.
unfoldable pub copy_n : ℕ → List Bytes → Result (List Bytes)
copy_n zero xs = ok []
copy_n (suc n) [] = err no_element
copy_n (suc n) (x ∷ xs) = copy_n n xs >>= λ ys. ok (x ∷ ys)

-- `detect` on the classes in the order that `std::shuffle` has left them in, whatever the frame.
unfoldable pub detect :
    {Frame : Type 0} → List Bytes → Frame → List Bytes → Result (List Bytes × List Bytes)
unfolding copy_n
detect shuffled frame result = copy_n 10 shuffled >>= λ picked. ok (shuffled, result ++ picked)
