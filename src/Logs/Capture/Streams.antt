-- ===== src/Logs/Capture/Streams.antt =====
-- What holds of the captures, however their goroutines interleave.
use ios_pilot.Base.{
  ℕ, zero, suc, ◌≤◌, String, ◌≡◌, refl, sym, ◌∙◌, ap, Bool, true, false, List, [], ◌∷◌, ◌++◌,
  length, length-append, arith,
}
use ios_pilot.Driver.{LogEntry}
use ios_pilot.Logs.Capture.{
  Session, capacity, change, send_entry, end_driver, end_drain, taken, take_entry,
}

-- A channel holds what was sent and not drained, in its order, and no more than its capacity. A
-- goroutine that drains runs until its capture is cancelled.
pub record IsStream (s : Session) : Type 0 where
  pub bounded : length s.queue ≤ capacity
  pub in_order : s.sent ≡ s.drained ++ s.queue
  pub alive : s.cancelled ≡ false → s.draining ≡ true

abbrev pub AllStreams : List Session → Type 0
AllStreams [] = Unit {0}
AllStreams (s ∷ ss) = IsStream s × AllStreams ss

abbrev pub AllCancelled : List Session → Type 0
AllCancelled [] = Unit {0}
AllCancelled (s ∷ ss) = (s.cancelled ≡ true) × AllCancelled ss

-- While the manager runs, its newest capture, of its device, is the only one that is not cancelled;
-- otherwise all are.
abbrev pub OneRuns : Bool → String → List Session → Type 0
OneRuns true udid [] = ⊥
OneRuns true udid (s ∷ ss) = (s.cancelled ≡ false) × (s.udid ≡ udid) × AllCancelled ss
OneRuns false udid ss = AllCancelled ss

-- a step of a capture that keeps its device and its context
pub record Keeps (f : Session → Session) : Type 0 where
  pub same_udid : (s : Session) → (f s).udid ≡ s.udid
  pub same_context : (s : Session) → (f s).cancelled ≡ s.cancelled
  pub stream : (s : Session) → IsStream s → IsStream (f s)

pub change-AllStreams :
    (k : ℕ) (f : Session → Session) (ss : List Session)
    → Keeps f
    → AllStreams ss
    → AllStreams (change k f ss)
unfolding change
change-AllStreams k f [] keeps h = tt
change-AllStreams zero f (s ∷ ss) keeps h = (keeps.stream s h.0, h.1)
change-AllStreams (suc k) f (s ∷ ss) keeps h = (h.0, change-AllStreams k f ss keeps h.1)

change-AllCancelled :
    (k : ℕ) (f : Session → Session) (ss : List Session)
    → Keeps f
    → AllCancelled ss
    → AllCancelled (change k f ss)
unfolding change
change-AllCancelled k f [] keeps h = tt
change-AllCancelled zero f (s ∷ ss) keeps h = (keeps.same_context s ∙ h.0, h.1)
change-AllCancelled (suc k) f (s ∷ ss) keeps h = (h.0, change-AllCancelled k f ss keeps h.1)

pub change-OneRuns :
    (running : Bool) (udid : String) (k : ℕ) (f : Session → Session) (ss : List Session)
    → Keeps f
    → OneRuns running udid ss
    → OneRuns running udid (change k f ss)
unfolding change
change-OneRuns true udid k f [] keeps h = elim h [ ]
change-OneRuns true udid zero f (s ∷ ss) keeps h =
    (keeps.same_context s ∙ h.0, keeps.same_udid s ∙ h.1, h.2)
change-OneRuns true udid (suc k) f (s ∷ ss) keeps h =
    (h.0, h.1, change-AllCancelled k f ss keeps h.2)
change-OneRuns false udid k f ss keeps h = change-AllCancelled k f ss keeps h

append_assoc : (xs ys zs : List LogEntry) → (xs ++ ys) ++ zs ≡ xs ++ (ys ++ zs)
append_assoc [] ys zs = refl
append_assoc (x ∷ xs) ys zs = ap (λ l. x ∷ l) (append_assoc xs ys zs)

pub send-Keeps : (e : LogEntry) → Keeps (send_entry e)
unfolding send_entry
send-Keeps e = record {
  same_udid = λ s. ground arith;
  same_context = λ s. ground arith;
  stream = λ s h.
      ground (arith, h, length-append s.queue (e ∷ []), append_assoc s.drained s.queue (e ∷ []));
}

pub end_driver-Keeps : Keeps end_driver
end_driver-Keeps = record {
  same_udid = λ s. refl;
  same_context = λ s. refl;
  stream = λ s h. record { bounded = h.bounded; in_order = h.in_order; alive = h.alive };
}

pub end_drain-Keeps : Keeps end_drain
unfolding end_drain
end_drain-Keeps = record {
  same_udid = λ s. ground arith;
  same_context = λ s. ground arith;
  stream = λ s h. ground (arith, h);
}

taken_stream : (q : List LogEntry) (s : Session) → s.queue ≡ q → IsStream s → IsStream (taken q s)
taken_stream [] s e h = h
taken_stream (x ∷ q) s e h = record {
  bounded = ground (arith, h.bounded, e);
  in_order = h.in_order ∙ ap (λ l. s.drained ++ l) e ∙ sym (append_assoc s.drained (x ∷ []) q);
  alive = h.alive;
}

taken_udid : (q : List LogEntry) (s : Session) → (taken q s).udid ≡ s.udid
taken_udid [] s = refl
taken_udid (x ∷ q) s = refl

taken_context : (q : List LogEntry) (s : Session) → (taken q s).cancelled ≡ s.cancelled
taken_context [] s = refl
taken_context (x ∷ q) s = refl

pub take-Keeps : Keeps take_entry
take-Keeps = record {
  same_udid = λ s. taken_udid s.queue s;
  same_context = λ s. taken_context s.queue s;
  stream = λ s h. taken_stream s.queue s refl h;
}
