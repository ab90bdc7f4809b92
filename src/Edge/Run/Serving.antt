-- ===== src/Edge/Run/Serving.antt =====
-- What holds of the edge's threads, its state and its output for as long as the program runs.
use crowdsensing.Common.{
  Ensures-any, Ensures-bind, ℕ, ◌%◌, ◌≡◌, ◌≢◌, ◌⊎◌, inl, inr, refl, sym, ◌∙◌, subst, ok, All,
  Ensures-ok, arith,
}
use crowdsensing.Asio.{Asio, IsAsio}
use crowdsensing.Libraries.{Libraries}
use crowdsensing.Edge.Producer.State.{State, Action, put, producer}
use crowdsensing.Edge.Producer.Reach.{
  Reachable, starts, handles, handle, reply_received, fetch_completed, timer_expired,
  Reachable-answered_once,
}
use crowdsensing.Edge.Execute.{after_fetch_error, after_fetch_complete, report}
use crowdsensing.Edge.Main as Main
use crowdsensing.Edge.Main.{Handler}
use crowdsensing.Edge.Run.{
  fetch_fails, Program, enter, threads, receive, Handed, Step, Runs, begins, steps, returned,
  looping, registers, register_fails, receives, replied, fetched, expires, face_ends, timer_ends,
  ndn_joined, timer_joined,
}
use crowdsensing.Edge.Run.Kept.{IsKept, send_data-IsKept, on_data-IsKept, adddata-IsKept}
use crowdsensing.Edge.Run.Allowed.{
  All-Handed, Allowed, puts_Allowed, receive-IsKept, receive-Reachable,
}

-- The handler that the mode's `run` registers.
abbrev pub handler : Libraries → ℕ → Handler
handler lib mode = Main.run (producer lib mode)

module _ (asio : Asio) (laws : IsAsio asio) {lib : Libraries} (mode : ℕ) where
  record IsServing (p : Program lib) : Type 0 where
    pub timer_work : p.timer_works ≡ 1
    pub timer_loops : p.timer_thread ≡ looping
    pub not_returned : p.caller ≢ returned
    pub filter_of : (p.filter ≡ Main.no_handler) ⊎ (p.filter ≡ handler lib mode)
    pub kept : IsKept (Allowed lib (handler lib mode)) (mode % 256) p.state
    pub reached : Reachable mode p.state

  -- A callback that returns.
  moved :
      (p : Program lib) (s : State lib)
      → IsServing p
      → IsKept (Allowed lib (handler lib mode)) (mode % 256) s
      → Reachable mode s
      → IsServing (record p { state = s })
  moved p s h kept reached = record {
    timer_work = h.timer_work;
    timer_loops = h.timer_loops;
    not_returned = h.not_returned;
    filter_of = h.filter_of;
    kept = kept;
    reached = reached;
  }

  producer-IsKept : IsKept (Allowed lib (handler lib mode)) (mode % 256) (producer lib mode)
  unfolding producer
  producer-IsKept = record { same_mode = refl; no_queue = refl; actions = tt }

  threads-IsServing : (f : Handler) → IsServing (threads lib f (producer lib mode))
  threads-IsServing Main.on_interest_cloud = record {
    timer_work = refl;
    timer_loops = refl;
    not_returned = λ z. cc;
    filter_of = inl refl;
    kept = producer-IsKept;
    reached = starts;
  }
  threads-IsServing Main.on_interest = record {
    timer_work = refl;
    timer_loops = refl;
    not_returned = λ z. cc;
    filter_of = inl refl;
    kept = producer-IsKept;
    reached = starts;
  }
  threads-IsServing Main.no_handler = record {
    timer_work = refl;
    timer_loops = refl;
    not_returned = λ z. cc;
    filter_of = inl refl;
    kept = producer-IsKept;
    reached = starts;
  }

  enter-IsServing : IsServing (enter lib (producer lib mode))
  unfolding enter
  enter-IsServing = threads-IsServing (Main.run (producer lib mode))

  registered : (s : State lib) → s.edge_mode ≡ mode % 256 → Main.run s ≡ handler lib mode
  unfolding Main.run producer
  registered s e = rw e refl

  -- What is put in a callback is allowed, since the callback answers something that was handed out.
  callback :
      (a : Action lib.ndn.Name lib.ndn.Data) (p : Program lib)
      → IsServing p
      → Handed a p.state.output
      → (d : lib.ndn.Data) → Allowed lib (handler lib mode) (put d)
  callback a p h handed =
      puts_Allowed lib (handler lib mode) a
        (All-Handed (Allowed lib (handler lib mode)) a p.state.output h.kept.actions handed)

  received-IsServing :
      (p : Program lib) (now : ℕ) (interest : lib.ndn.Interest) (s : State lib)
      → IsServing p
      → receive lib p.filter now interest p.state ≡ ok s
      → IsServing (record p { state = s })
  unfolding receive
  received-IsServing p now interest s h done = elim h.filter_of [
    | inl none ↦
        let e : receive lib Main.no_handler now interest p.state ≡ ok s =
          subst (λ f. receive lib f now interest p.state ≡ ok s) none done in
        let same : p.state ≡ s = cc in
        moved p s h (subst (IsKept (Allowed lib (handler lib mode)) (mode % 256)) same h.kept)
          (subst (Reachable mode) same h.reached)
    | inr f ↦
        let e = subst (λ f. receive lib f now interest p.state ≡ ok s) f done in
        moved p s h
          (Ensures-ok (IsKept (Allowed lib (handler lib mode)) (mode % 256)) _ s
            (receive-IsKept (handler lib mode) (mode % 256) now interest p.state h.kept) e)
          (receive-Reachable (handler lib mode) mode now interest p.state s h.reached e)
  ]

  Step-IsServing : {p q : Program lib} → IsServing p → Step asio p q → IsServing q
  unfolding handle after_fetch_complete after_fetch_error
  Step-IsServing {p} h (registers at) = record {
    timer_work = h.timer_work;
    timer_loops = h.timer_loops;
    not_returned = h.not_returned;
    filter_of = inr (registered p.state h.kept.same_mode);
    kept = h.kept;
    reached = h.reached;
  }
  Step-IsServing {p} h (register_fails s at done) =
      let (few, well, fails) = Reachable-answered_once {lib = lib} mode p.state h.reached in
      absurd (let e = sym fails ∙ done in cc)
  Step-IsServing {p} h (receives now interest s at done) =
      received-IsServing p now interest s h done
  Step-IsServing {p} h (replied request value s at handed done) =
      moved p s h
        (Ensures-ok _ _ s
          (on_data-IsKept (Allowed lib (handler lib mode)) (mode % 256) (callback _ p h handed)
            value p.state h.kept)
          done)
        (handles h.reached (reply_received value) done)
  Step-IsServing {p} h (fetched request e detector bytes s at handed done) =
      moved p s h
        (Ensures-ok _ _ s
          (Ensures-bind (λ a. Unit {0}) _ (detector (lib.ndn.block_value bytes)) _
            (Ensures-any (detector (lib.ndn.block_value bytes)))
            (λ found u.
              adddata-IsKept (Allowed lib (handler lib mode)) (mode % 256) (callback _ p h handed)
                (report lib found e) p.state h.kept))
          done)
        (handles h.reached (fetch_completed detector e bytes) done)
  Step-IsServing {p} h (fetch_fails request e error_code error_msg s at handed done) =
      let same : p.state ≡ s = cc in
      moved p s h (subst (IsKept (Allowed lib (handler lib mode)) (mode % 256)) same h.kept)
        (subst (Reachable mode) same h.reached)
  Step-IsServing {p} h (expires error sid s at handed done) =
      moved p s h
        (Ensures-ok _ _ s
          (send_data-IsKept (Allowed lib (handler lib mode)) (mode % 256) (callback _ p h handed)
            error sid p.state h.kept)
          done)
        (handles h.reached (timer_expired error sid) done)
  Step-IsServing {p} h (face_ends at) = record {
    timer_work = h.timer_work;
    timer_loops = h.timer_loops;
    not_returned = h.not_returned;
    filter_of = h.filter_of;
    kept = h.kept;
    reached = h.reached;
  }
  Step-IsServing {p} h (timer_ends handlers at returns) =
      let (idle, none_wait) = laws.returns-idle p.timer_works handlers returns in
      absurd (omega (arith, idle, h.timer_work))
  Step-IsServing {p} h (ndn_joined at is_ended) = record {
    timer_work = h.timer_work;
    timer_loops = h.timer_loops;
    not_returned = λ z. cc;
    filter_of = h.filter_of;
    kept = h.kept;
    reached = h.reached;
  }
  Step-IsServing {p} h (timer_joined at is_ended) =
      absurd (let e = sym h.timer_loops ∙ is_ended in cc)

  Runs-IsServing : {p : Program lib} → Runs asio mode p → IsServing p
  Runs-IsServing begins = enter-IsServing
  Runs-IsServing (steps r st) = Step-IsServing (Runs-IsServing r) st

  pub Runs-no_queue : (p : Program lib) → Runs asio mode p → p.state.num_queue ≡ 0
  Runs-no_queue p r = (Runs-IsServing r).kept.no_queue

  -- For as long as a program runs that `main` started in some mode: the call of `run` has not
  -- returned, and the timer service's thread has not ended; the producer is in a state that its
  -- handlers reach from the constructor; and what it has handed out is what the mode's handler may
  -- hand out: in edge mode no fetch, in cloud mode no Interest but the fetchers' and fetches for
  -- sessions of the generator only, in another mode nothing at all.
  pub Runs-serving :
      (p : Program lib)
      → Runs asio mode p
      → (p.caller ≢ returned)
        × (p.timer_thread ≡ looping)
        × Reachable mode p.state
        × All (Allowed lib (handler lib mode)) p.state.output
  Runs-serving p r =
      let h = Runs-IsServing r in (h.not_returned, h.timer_loops, h.reached, h.kept.actions)
