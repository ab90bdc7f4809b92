-- ===== src/Edge/Run/Allowed.antt =====
-- What the edge may hand out under each of its handlers.
use crowdsensing.Common.{ℕ, ◌≡◌, subst, List, [], ◌∷◌, ◌++◌, ok, All, Ensures}
use crowdsensing.Decimal.{to_string}
use crowdsensing.Random.{random}
use crowdsensing.Libraries.{Libraries}
use crowdsensing.Edge.Producer.State.{State, Action, put, express, fetch}
use crowdsensing.Edge.Producer.Reach.{
  Reachable, handles, handle, query_received, cloud_query_received,
}
use crowdsensing.Edge.Main as Main
use crowdsensing.Edge.Main.{Handler}
use crowdsensing.Edge.Run.{receive, Handed}
use crowdsensing.Edge.Run.Kept.{IsKept, on_interest-IsKept, on_interest_cloud-IsKept}

pub All-Handed :
    {A : Type 0} (P : A → Type 0) (a : A) (out : List A) → All P out → Handed a out → P a
All-Handed {A = A} P a out h (before, after, e) = found before (subst (All P) e h)
  where
    found : (before : List A) → All P (before ++ a ∷ after) → P a
    found [] (pa, rest) = pa
    found (b ∷ bs) (pb, rest) = found bs rest

module _ (lib : Libraries) where
  -- What the program may hand out under each handler. A fetch is for a session of the generator's.
  abbrev pub Allowed : Handler → Action lib.ndn.Name lib.ndn.Data → Type 0
  Allowed Main.on_interest (fetch request e) = ⊥
  Allowed Main.on_interest a = Unit
  Allowed Main.on_interest_cloud (express request) = ⊥
  Allowed Main.on_interest_cloud (fetch request e) = (n : ℕ) × (e.session_id ≡ to_string (random n))
  Allowed Main.on_interest_cloud a = Unit
  Allowed Main.no_handler a = ⊥

  -- Where something was handed out, packets may be put.
  pub puts_Allowed :
      (f : Handler) (a : Action lib.ndn.Name lib.ndn.Data)
      → Allowed f a
      → (d : lib.ndn.Data) → Allowed f (put d)
  puts_Allowed Main.on_interest a h d = tt
  puts_Allowed Main.on_interest_cloud a h d = tt
  puts_Allowed Main.no_handler a h d = absurd h

module _ {lib : Libraries} where
  pub receive-IsKept :
      (f : Handler) (mode now : ℕ) (interest : lib.ndn.Interest) (s : State lib)
      → IsKept (Allowed lib f) mode s
      → Ensures (IsKept (Allowed lib f) mode) (receive lib f now interest s)
  unfolding receive
  receive-IsKept Main.on_interest mode now interest s h =
      on_interest-IsKept (Allowed lib Main.on_interest) mode (λ sid. tt) (λ r. tt) now interest s h
  receive-IsKept Main.on_interest_cloud mode now interest s h =
      on_interest_cloud-IsKept (Allowed lib Main.on_interest_cloud) mode (λ sid. tt)
        (λ r e n own. (n, own)) now interest s h
  receive-IsKept Main.no_handler mode now interest s h = h

  pub receive-Reachable :
      (f : Handler) (mode now : ℕ) (interest : lib.ndn.Interest) (s t : State lib)
      → Reachable mode s
      → receive lib f now interest s ≡ ok t
      → Reachable mode t
  unfolding receive handle
  receive-Reachable Main.on_interest mode now interest s t r e =
      handles r (query_received now interest) e
  receive-Reachable Main.on_interest_cloud mode now interest s t r e =
      handles r (cloud_query_received now interest) e
  receive-Reachable Main.no_handler mode now interest s t r e = subst (Reachable mode) (cc) r
