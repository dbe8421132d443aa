-- ===== src/OutputBuffer/Close.antt =====
-- `close` (src/OutputBuffer.cpp): every waiting request is told that the buffer has closed, once.
use mathlib.Core.List.{Mem, not-mem-nil}
use ml_gridengine_executor.Base.{
  Bool-cases, inl, inr, ℕ, ◌≡◌, refl, ap, ◌∙◌, subst, List, [], true, false, some, arith,
  if◌then◌else◌, ◌>>=◌, sym, length,
}
use ml_gridengine_executor.Heap.{PairingHeap}
use ml_gridengine_executor.Readers.{ReaderList}
use ml_gridengine_executor.Readers
use ml_gridengine_executor.Readers.Counts.{active}
use ml_gridengine_executor.Readers.Close.{shut_in, close-Closed}
use ml_gridengine_executor.OutputBuffer.{OutputBuffer, close_open, close, destroy_buffer}
use ml_gridengine_executor.OutputBuffer.Spec.{Represents, Holds, holds}

module _ (H : PairingHeap) (b : OutputBuffer H) where
  open H use {items}

  close-readers :
      {l : ReaderList H}
      → b.is_closed ≡ false
      → Readers.close H b.readers ≡ some l
      → close H b ≡ some (record b { is_closed = true; readers = l })
  unfolding close close_open
  close-readers e e' =
      ap (λ c. if c then some b else close_open H b) e
      ∙ ap (λ o. o >>= λ l. some (record b { is_closed = true; readers = l })) e'

  -- Closing a buffer twice is closing it once.
  pub close_again : b.is_closed ≡ true → close H b ≡ some b
  unfolding close
  close_again e = ap (λ c. if c then some b else close_open H b) e

  -- Destroying a buffer closes it, if that has not been done.
  pub destroy_buffer-close : destroy_buffer H b ≡ close H b
  unfolding destroy_buffer close
  destroy_buffer-close = elim (Bool-cases b.is_closed) [ inl c ↦ rw c refl | inr c ↦ rw c refl ]

  -- What closing an open buffer leaves of `b`.
  pub record Shut (b' : OutputBuffer H) (history : List ℕ) : Type 0 where
    pub is_shut : b'.is_closed ≡ true
    pub represents : Represents H b' history
    pub tells : (k : ℕ) → b'.readers.requests k ≡ shut_in H b.readers.heap b.readers.requests k
    pub none_wait : items b'.readers.heap ≡ []
    pub same_ring : b'.ring ≡ b.ring

  -- The same without its counters: the code makes them 0.
  pub close-Holds :
      (history : List ℕ)
      → Holds H b history
      → b.is_closed ≡ false
      → (b' : OutputBuffer H) × (close H b ≡ some b') × Shut b' history
  close-Holds history rep e =
      let (l, eq, c) = close-Closed H b.readers in
      (
        record b { is_closed = true; readers = l },
        close-readers e eq,
        record {
          is_shut = refl;
          represents = record {
            keeps = rep.keeps;
            counts = record {
              sized = c.no_size ∙ sym (ap length c.no_items);
              counted = c.no_active ∙ sym (ap (active l.requests) c.no_items);
              small = omega (arith, c.no_size);
            };
            distinct = λ k. rw c.no_items (omega arith);
            late = λ x m. absurd (not-mem-nil (subst (Mem x) c.no_items m));
          };
          tells = c.requests_shut;
          none_wait = c.no_items;
          same_ring = refl;
        },
      )

  -- Closing an open buffer that represents a history ends, keeps the history, and leaves no
  -- request waiting: each that waited is woken with the result Closed, and any other is as it
  -- was.
  pub close-Shut :
      (history : List ℕ)
      → Represents H b history
      → b.is_closed ≡ false
      → (b' : OutputBuffer H) × (close H b ≡ some b') × Shut b' history
  close-Shut history rep = close-Holds history (holds H rep)
