-- ===== src/Daemon/Delivery.antt =====
-- What the sink of backend/internal/daemon/transaction_sink.go delivers: nothing is lost or written
-- twice, and nothing is acknowledged before it is written.
use mathlib.Core.List.{append-nil, append_assoc}
use expensor.Prelude.{
  ℕ, zero, suc, ◌<◌, String, ◌≡◌, ap, sym, ◌∙◌, refl, Bool, true, false, Option, none, some, List,
  [], ◌∷◌, ◌++◌, arith, length, leb, if◌then◌else◌,
}
use expensor.Errors.{Err}
use expensor.Daemon.Sink.{
  Flush, Event, context_done, received, input_closed, tick, Sink, new_sink, Outcome, goes_on,
  returned, ids, send_acks, flush_batch, flush_unless_empty, write_batch, acknowledged,
  go_on_unless, on_event, write,
}

module _ {T : Type 0} (message_id : T → String) where
  -- The transactions that were read off the input by some events.
  unfoldable pub taken : List (Event T) → List T
  taken [] = []
  taken (received t f ∷ evs) = t ∷ taken evs
  taken (context_done f ∷ evs) = taken evs
  taken (input_closed f ∷ evs) = taken evs
  taken (tick f ∷ evs) = taken evs

  pub ids-append :
      (xs ys : List T) → ids message_id (xs ++ ys) ≡ ids message_id xs ++ ids message_id ys
  unfolding ids
  ids-append [] ys = refl
  ids-append (x ∷ xs) ys = ground (arith, ids-append xs ys)

  -- What is sent is a front part of the ids, and all of them if the context did not end the loop.
  send_acks-prefix :
      (n : Option ℕ) (ks : List String)
      → (rest : List String) × ((send_acks message_id n ks).0 ++ rest ≡ ks)
  unfolding send_acks
  send_acks-prefix none ks = ([], append-nil ks)
  send_acks-prefix (some n) [] = ([], refl)
  send_acks-prefix (some zero) (k ∷ ks) = (k ∷ ks, refl)
  send_acks-prefix (some (suc n)) (k ∷ ks) =
      let (rest, eq) = send_acks-prefix (some n) ks in (rest, ap (λ l. k ∷ l) eq)

  pub send_acks-all :
      (n : Option ℕ) (ks : List String)
      → (send_acks message_id n ks).1 ≡ true
      → (send_acks message_id n ks).0 ≡ ks
  unfolding send_acks
  send_acks-all none ks h = refl
  send_acks-all (some n) [] h = refl
  send_acks-all (some zero) (k ∷ ks) h = cc
  send_acks-all (some (suc n)) (k ∷ ks) h = ap (λ l. k ∷ l) (send_acks-all (some n) ks h)

  -- Nothing of what was read is lost, and all that was written is acknowledged.
  abbrev pub IsKept : Sink T → List T → Type 0
  IsKept s xs = (s.written ++ s.batch ≡ xs) × (s.acks ≡ ids message_id s.written)

  -- What was written was read, in order, and what was acknowledged was written.
  abbrev IsSafe : Sink T → List T → Type 0
  IsSafe s xs =
      ((rest : List T) × (s.written ++ rest ≡ xs))
      × ((rest : List String) × (s.acks ++ rest ≡ ids message_id s.written))

  IsKept-IsSafe : (s : Sink T) (xs : List T) → IsKept s xs → IsSafe s xs
  IsKept-IsSafe s xs k = ((s.batch, k.0), ([], append-nil s.acks ∙ k.1))

  -- After a flush: kept with nothing in hand, or failed and safe.
  abbrev Flushed : List T → Sink T × Option Err → Type 0
  Flushed xs (s, none) = IsKept s xs × (s.batch ≡ [])
  Flushed xs (s, some err) = IsSafe s xs

  acknowledged-Flushed :
      (f : Flush) (s : Sink T) (xs : List T) (n : Option ℕ)
      → IsKept s xs
      → Flushed xs (acknowledged message_id f s (send_acks message_id n (ids message_id s.batch)))
  acknowledged-Flushed f s xs n k =
      by_end (send_acks message_id n (ids message_id s.batch)).1
        (send_acks message_id n (ids message_id s.batch)).0
        (send_acks-all n (ids message_id s.batch)) (send_acks-prefix n (ids message_id s.batch))
    where
      by_end :
          (all : Bool) (sent : List String)
          → (all ≡ true → sent ≡ ids message_id s.batch)
          → (rest : List String) × (sent ++ rest ≡ ids message_id s.batch)
          → Flushed xs (acknowledged message_id f s (sent, all))
      by_end true sent a p = (
        (append-nil (s.written ++ s.batch) ∙ k.0, cc (ids-append s.written s.batch, k.1, a refl)),
        refl,
      )
      by_end false sent a (rest, p) = (
        ([], append-nil (s.written ++ s.batch) ∙ k.0),
        (rest, cc (append_assoc s.acks sent rest, ids-append s.written s.batch, k.1, p)),
      )

  flush_batch-Flushed :
      (f : Flush) (s : Sink T) (xs : List T) → IsKept s xs → Flushed xs (flush_batch message_id f s)
  unfolding flush_batch
  flush_batch-Flushed f s xs k = by_batch s.batch refl
    where
      by_fault : (fault : Option Err) → Flushed xs (write_batch message_id fault f s)
      by_fault none = acknowledged-Flushed f s xs f.taken k
      by_fault (some err) = IsKept-IsSafe s xs k

      by_batch : (b : List T) → s.batch ≡ b → Flushed xs (flush_unless_empty message_id b f s)
      by_batch [] e = (k, e)
      by_batch (t ∷ ts) e = by_fault f.write_fault

  -- After a round: as between two rounds, or ended. A return with no error has delivered all.
  abbrev Rounded : ℕ → List T → Sink T × Outcome → Type 0
  Rounded size xs (s, goes_on) = IsKept s xs × (length s.batch < size)
  Rounded size xs (s, returned none) = IsKept s xs × (s.batch ≡ [])
  Rounded size xs (s, returned (some err)) = IsSafe s xs

  go_on-Rounded :
      (size : ℕ) (xs : List T) (p : Sink T × Option Err)
      → 0 < size
      → Flushed xs p
      → Rounded size xs (go_on_unless message_id p)
  go_on-Rounded size xs (s, none) pos h = (h.0, rw h.1 pos)
  go_on-Rounded size xs (s, some err) pos h = h

  return-Rounded :
      (size : ℕ) (xs : List T) (p : Sink T × Option Err)
      → Flushed xs p
      → Rounded size xs (p.0, returned p.1)
  return-Rounded size xs (s, none) h = h
  return-Rounded size xs (s, some err) h = h

  Flushed-IsSafe : (xs : List T) (p : Sink T × Option Err) → Flushed xs p → IsSafe p.0 xs
  Flushed-IsSafe xs (s, none) h = IsKept-IsSafe s xs h.0
  Flushed-IsSafe xs (s, some err) h = h

  on_event-Rounded :
      (size : ℕ) (s : Sink T) (xs : List T) (ev : Event T)
      → 0 < size
      → IsKept s xs
      → length s.batch < size
      → Rounded size (xs ++ taken (ev ∷ [])) (on_event message_id size s ev)
  unfolding on_event taken
  on_event-Rounded size s xs (context_done f) pos k b =
      rw append-nil (Flushed-IsSafe xs (flush_batch message_id f s) (flush_batch-Flushed f s xs k))
  on_event-Rounded size s xs (input_closed f) pos k b =
      rw append-nil
        (return-Rounded size xs (flush_batch message_id f s) (flush_batch-Flushed f s xs k))
  on_event-Rounded size s xs (tick f) pos k b =
      rw append-nil
        (go_on-Rounded size xs (flush_batch message_id f s) pos (flush_batch-Flushed f s xs k))
  on_event-Rounded size s xs (received t f) pos k b =
      by_size (leb size (length s'.batch)) (λ e. room size (length s'.batch) e)
    where
      s' : Sink T
      s' = record s { batch = s.batch ++ t ∷ [] }

      kept : IsKept s' (xs ++ t ∷ [])
      kept = (cc (append_assoc s.written s.batch (t ∷ []), k.0), k.1)

      room : (m n : ℕ) → leb m n ≡ false → n < m
      room m n h = ground arith

      by_size :
          (full : Bool)
          → (full ≡ false → length s'.batch < size)
          → Rounded size (xs ++ t ∷ []) (
              if full then go_on_unless message_id (flush_batch message_id f s') else (s', goes_on))
      by_size true small =
          go_on-Rounded size (xs ++ t ∷ []) (flush_batch message_id f s') pos
            (flush_batch-Flushed f s' (xs ++ t ∷ []) kept)
      by_size false small = (kept, small refl)

  taken-cons :
      (ev : Event T) (evs : List (Event T)) → taken (ev ∷ evs) ≡ taken (ev ∷ []) ++ taken evs
  unfolding taken
  taken-cons (received t f) evs = refl
  taken-cons (context_done f) evs = refl
  taken-cons (input_closed f) evs = refl
  taken-cons (tick f) evs = refl

  -- At any point of any run: what is written is a front part of what was read, in the order of
  -- reading; what is acknowledged is a front part of the ids of what is written; and between two
  -- rounds nothing that was read is missing and the batch in hand is below its size.
  abbrev pub IsDelivering : ℕ → List T → Sink T × Outcome → Type 0
  IsDelivering size xs (s, goes_on) =
      (s.written ++ s.batch ≡ xs) × (s.acks ≡ ids message_id s.written) × (length s.batch < size)
  IsDelivering size xs (s, returned err) =
      ((rest : List T) × (s.written ++ rest ≡ xs))
      × ((rest : List String) × (s.acks ++ rest ≡ ids message_id s.written))

  more_to_read :
      (size : ℕ) (xs ys : List T) (s : Sink T) (err : Option Err)
      → Rounded size xs (s, returned err)
      → IsDelivering size (xs ++ ys) (s, returned err)
  more_to_read size xs ys s none h = extend xs ys s (IsKept-IsSafe s xs h.0)
    where
      extend : (xs ys : List T) (s : Sink T) → IsSafe s xs → IsSafe s (xs ++ ys)
      extend xs ys s ((rest, p), a) = ((rest ++ ys, cc (append_assoc s.written rest ys, p)), a)
  more_to_read size xs ys s (some err) ((rest, p), a) =
      ((rest ++ ys, cc (append_assoc s.written rest ys, p)), a)

  pub write-from :
      (size : ℕ) (evs : List (Event T)) (s : Sink T) (xs : List T)
      → 0 < size
      → IsKept s xs
      → length s.batch < size
      → IsDelivering size (xs ++ taken evs) (write message_id size s evs)
  unfolding write taken
  write-from size [] s xs pos k b = (k.0 ∙ sym (append-nil xs), k.1, b)
  write-from size (ev ∷ evs) s xs pos k b = rw taken-cons (
      rw (← append_assoc) (
        by_outcome (on_event message_id size s ev).1 (on_event message_id size s ev).0
          (on_event-Rounded size s xs ev pos k b) (write-from size evs)))
    where
      by_outcome :
          (o : Outcome) (s' : Sink T)
          → Rounded size (xs ++ taken (ev ∷ [])) (s', o)
          → ((s : Sink T) (xs : List T)
              → 0 < size
              → IsKept s xs
              → length s.batch < size
              → IsDelivering size (xs ++ taken evs) (write message_id size s evs))
          → IsDelivering size ((xs ++ taken (ev ∷ [])) ++ taken evs) (elim o [
            | goes_on ↦ write message_id size s' evs
            | returned err ↦ (s', returned err)
          ])
      by_outcome goes_on s' h rec = rec s' (xs ++ taken (ev ∷ [])) pos h.0 h.1
      by_outcome (returned err) s' h rec =
          more_to_read size (xs ++ taken (ev ∷ [])) (taken evs) s' err h

  -- With a batch size above zero, whatever the events, faults and cancellations: what is written is a front part of what was read,
  -- what is acknowledged is a front part of the ids of what is written, and while the loop goes on
  -- nothing that was read is missing and the batch in hand stays below its size.
  pub write-IsDelivering :
      (size : ℕ) (evs : List (Event T))
      → 0 < size
      → IsDelivering size (taken evs) (write message_id size new_sink evs)
  write-IsDelivering size evs pos =
      write-from size evs new_sink [] pos (refl, unfold ids in refl) pos
