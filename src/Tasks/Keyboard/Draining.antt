-- ===== src/Tasks/Keyboard/Draining.antt =====
-- src/task/keyboard.rs: `print_keypresses` as a future, and what one poll of it does, where no
-- keyboard interrupt comes between its steps; `Interleaving` has those with interrupts.
use blog_os.Base.{
  ℕ, zero, suc, ◌≤◌, ◌<◌, ◌≡◌, refl, ap, sym, subst, ◌∙◌, List, [], ◌∷◌, ◌++◌, length, Option, none,
  some, Result, ok, err, Exec, done, ◌>>=◌, true, false, arith,
}
use blog_os.Tasks.Queues.{ArrayQueue}
use blog_os.Tasks.Keyboard.{
  OnceCell, AtomicWaker, Statics, ready, pending, stream_new, pop, register, poll_next, Keyboard,
  on_scancode, DecodedKey, raw_key, unicode,
}

-- Where the future stands: before its first poll, or at the `await` of its loop.
pub data Keypresses (K : Type 0) : Type 0 where
  unstarted : Keypresses K
  awaiting : K → Keypresses K

-- What a decoder makes of scancodes: the characters, and the decoder afterwards. A scancode may end
-- no event, or an event may give no key or one without a character; then nothing is printed.
pub data Decodes {K Event E : Type 0} (keyboard : Keyboard K Event E)
    : K → List ℕ → List ℕ → K → Type 0 where
  all_read : {k : K} → Decodes keyboard k [] [] k
  bad_byte :
      {k k₁ k' : K} {c : ℕ} {cs out : List ℕ} {e : E}
      → keyboard.add_byte k c ≡ (err e, k₁)
      → Decodes keyboard k₁ cs out k'
      → Decodes keyboard k (c ∷ cs) out k'
  no_event :
      {k k₁ k' : K} {c : ℕ} {cs out : List ℕ}
      → keyboard.add_byte k c ≡ (ok none, k₁)
      → Decodes keyboard k₁ cs out k'
      → Decodes keyboard k (c ∷ cs) out k'
  no_key :
      {k k₁ k₂ k' : K} {c : ℕ} {cs out : List ℕ} {event : Event}
      → keyboard.add_byte k c ≡ (ok (some event), k₁)
      → keyboard.process_keyevent k₁ event ≡ (none, k₂)
      → Decodes keyboard k₂ cs out k'
      → Decodes keyboard k (c ∷ cs) out k'
  raw :
      {k k₁ k₂ k' : K} {c key : ℕ} {cs out : List ℕ} {event : Event}
      → keyboard.add_byte k c ≡ (ok (some event), k₁)
      → keyboard.process_keyevent k₁ event ≡ (some (raw_key key), k₂)
      → Decodes keyboard k₂ cs out k'
      → Decodes keyboard k (c ∷ cs) out k'
  character :
      {k k₁ k₂ k' : K} {c u : ℕ} {cs out : List ℕ} {event : Event}
      → keyboard.add_byte k c ≡ (ok (some event), k₁)
      → keyboard.process_keyevent k₁ event ≡ (some (unicode u), k₂)
      → Decodes keyboard k₂ cs out k'
      → Decodes keyboard k (c ∷ cs) (u ∷ out) k'

module _ {K Event E : Type 0} (keyboard : Keyboard K Event E) (k k' : K) (c : ℕ) (cs out : List ℕ)
    (d : Decodes keyboard (on_scancode keyboard k c).1 cs out k') where
  gives :
      (first : List ℕ) (k₁ : K)
      → on_scancode keyboard k c ≡ (first, k₁)
      → (Decodes keyboard k₁ cs out k' → Decodes keyboard k (c ∷ cs) (first ++ out) k')
      → Decodes keyboard k (c ∷ cs) ((on_scancode keyboard k c).0 ++ out) k'
  gives first k₁ e h =
      subst
        (λ (r : List ℕ × K).
          Decodes keyboard r.1 cs out k' → Decodes keyboard k (c ∷ cs) (r.0 ++ out) k')
        (sym e) h d

  event-Decodes :
      (k₁ : K) (event : Event) (r : Option DecodedKey × K)
      → keyboard.add_byte k c ≡ (ok (some event), k₁)
      → keyboard.process_keyevent k₁ event ≡ r
      → Decodes keyboard k (c ∷ cs) ((on_scancode keyboard k c).0 ++ out) k'
  unfolding on_scancode
  event-Decodes k₁ event (none, k₂) e f =
      gives [] k₂
        (rw (on_scancode, ap (λ r. r.0) e, ap (λ r. r.1) e, ap (λ r. r.0) f, ap (λ r. r.1) f) refl)
        (λ later. no_key e f later)
  event-Decodes k₁ event (some (raw_key key), k₂) e f =
      gives [] k₂
        (rw (on_scancode, ap (λ r. r.0) e, ap (λ r. r.1) e, ap (λ r. r.0) f, ap (λ r. r.1) f) refl)
        (λ later. raw e f later)
  event-Decodes k₁ event (some (unicode u), k₂) e f =
      gives (u ∷ []) k₂
        (rw (on_scancode, ap (λ r. r.0) e, ap (λ r. r.1) e, ap (λ r. r.0) f, ap (λ r. r.1) f) refl)
        (λ later. character e f later)

  byte-Decodes :
      (r : Result E (Option Event) × K)
      → keyboard.add_byte k c ≡ r
      → Decodes keyboard k (c ∷ cs) ((on_scancode keyboard k c).0 ++ out) k'
  unfolding on_scancode
  byte-Decodes (err x, k₁) e =
      gives [] k₁ (rw (on_scancode, ap (λ r. r.0) e, ap (λ r. r.1) e) refl)
        (λ later. bad_byte e later)
  byte-Decodes (ok none, k₁) e =
      gives [] k₁ (rw (on_scancode, ap (λ r. r.0) e, ap (λ r. r.1) e) refl)
        (λ later. no_event e later)
  byte-Decodes (ok (some event), k₁) e =
      event-Decodes k₁ event (keyboard.process_keyevent k₁ event) e refl

  on_scancode-Decodes : Decodes keyboard k (c ∷ cs) ((on_scancode keyboard k c).0 ++ out) k'
  on_scancode-Decodes = byte-Decodes (keyboard.add_byte k c) refl

-- What a poll leaves, which is always `Pending`: what it printed, the decoder, and the statics.
pub record Drained (K S : Type 0) : Type 0 where
  pub printed : List ℕ
  pub keyboard : K
  pub statics : S

abbrev before : {K S : Type 0} → List ℕ → Option (Drained K S) → Option (Drained K S)
before out none = none
before out (some d) = some (record d { printed = out ++ d.printed })

module _ {C Q A K Event E : Type 0} ⦃once : OnceCell C⦄ ⦃queue : ArrayQueue Q ℕ⦄
    ⦃atomic : AtomicWaker A⦄ (keyboard : Keyboard K Event E) where
  -- The loop, for at most so many calls of `next`; `none` where they do not suffice.
  unfoldable pub drain : ℕ → ℕ → K → Statics C Q A → Exec (Option (Drained K (Statics C Q A)))
  drain zero id k s = done none
  drain (suc fuel) id k s = poll_next id s >>= λ r. elim r.0 [
    | pending ↦ done (some (record { printed = []; keyboard = k; statics = r.1 }))
    | ready c ↦ drain fuel id (on_scancode keyboard k c).1 r.1 >>= λ d.
        done (before (on_scancode keyboard k c).0 d)
  ]

  -- A poll of the future with the waker of the task `id`; `new` is the decoder at first.
  unfoldable pub poll_keypresses :
      ℕ → ℕ → K → Keypresses K → Statics C Q A → Exec (Option (Drained K (Statics C Q A)))
  poll_keypresses fuel id new unstarted s = stream_new s >>= λ s'. drain fuel id new s'
  poll_keypresses fuel id new (awaiting k) s = drain fuel id k s

module _ {C Q A : Type 0} ⦃once : OnceCell C⦄ ⦃queue : ArrayQueue Q ℕ⦄
    ⦃atomic : AtomicWaker A⦄ where
  poll_next-ready :
      (id c : ℕ) (cs : List ℕ) (s : Statics C Q A)
      → once.try_get s.cell ≡ true
      → queue.items s.scancode_queue ≡ c ∷ cs
      → (s' : Statics C Q A) × (poll_next id s ≡ done (ready c, s'))
        × (queue.items s'.scancode_queue ≡ cs)
        × (s'.cell ≡ s.cell)
  unfolding poll_next pop
  poll_next-ready id c cs s init listed =
      let (q, popped, left, cap) = queue.pop_first s.scancode_queue c cs listed in
      (record s { scancode_queue = q }, rw (poll_next, init, pop, popped) refl, left, refl)

  pop-empty : (s : Statics C Q A) → queue.items s.scancode_queue ≡ [] → pop s ≡ none
  unfolding pop
  pop-empty s empty = rw (pop, queue.pop_empty s.scancode_queue empty) refl

  poll_next-pending :
      (id : ℕ) (s : Statics C Q A)
      → once.try_get s.cell ≡ true
      → queue.items s.scancode_queue ≡ []
      → poll_next id s ≡ done (pending, register id s)
  unfolding poll_next register
  poll_next-pending id s init empty =
      rw (poll_next, init, pop-empty s empty, pop-empty (register id s) empty) refl

  module _ {K Event E : Type 0} (keyboard : Keyboard K Event E) where
    -- What a poll that found these scancodes in the queue leaves.
    pub record IsDrained (id : ℕ) (cs : List ℕ) (k : K) (cell : C) (d : Drained K (Statics C Q A))
        : Type 0 where
      pub decodes : Decodes keyboard k cs d.printed d.keyboard
      pub emptied : queue.items d.statics.scancode_queue ≡ []
      pub enlisted : atomic.registered d.statics.scancode_waker ≡ some id
      pub cell_same : d.statics.cell ≡ cell

    drain_lem :
        (cs : List ℕ) (id fuel : ℕ) (k : K) (s : Statics C Q A)
        → once.try_get s.cell ≡ true
        → queue.items s.scancode_queue ≡ cs
        → length cs < fuel
        → (d : Drained K (Statics C Q A)) × (drain keyboard fuel id k s ≡ done (some d))
          × IsDrained id cs k s.cell d
    unfolding drain register
    drain_lem [] id zero k s init listed h = absurd (omega arith)
    drain_lem [] id (suc fuel) k s init listed h = (
      record { printed = []; keyboard = k; statics = register id s },
      rw (drain, poll_next-pending id s init listed) refl,
      record {
        decodes = all_read;
        emptied = listed;
        enlisted = atomic.registered-register s.scancode_waker id;
        cell_same = refl;
      },
    )
    drain_lem (c ∷ cs) id zero k s init listed h = absurd (omega arith)
    drain_lem (c ∷ cs) id (suc fuel) k s init listed h =
        let (s', polled, left, cell) = poll_next-ready id c cs s init listed in
        let (d, went, r) =
          drain_lem cs id fuel (on_scancode keyboard k c).1 s'
            (ap (λ x. once.try_get x) cell ∙ init) left (omega arith) in
        (
          record d { printed = (on_scancode keyboard k c).0 ++ d.printed },
          rw (drain, polled, went) refl,
          record {
            decodes = on_scancode-Decodes keyboard k d.keyboard c cs d.printed r.decodes;
            emptied = r.emptied;
            enlisted = r.enlisted;
            cell_same = r.cell_same ∙ cell;
          },
        )

    -- A poll of `print_keypresses` that no keyboard interrupt divides ends in `Pending`, with an
    -- empty queue and its own waker registered: the first, which makes the stream, with nothing
    -- printed, and a later one, for a queue of at most 100 scancodes, with what the decoder makes
    -- of all of them in order printed: the characters, and nothing for a scancode that ends no
    -- event, an event without a key, or a raw key. 101 calls of `next` are enough.
    pub poll_keypresses_lem :
        (id : ℕ) (new k : K) (s : Statics C Q A)
        → (once.try_get s.cell ≡ false
            → (d : Drained K (Statics C Q A)) × (poll_keypresses keyboard 101 id new unstarted s
                ≡ done (some d))
              × (once.try_get d.statics.cell ≡ true)
              × IsDrained id [] new d.statics.cell d)
          × (once.try_get s.cell ≡ true
              → length (queue.items s.scancode_queue) ≤ 100
              → (d : Drained K (Statics C Q A)) × (poll_keypresses keyboard 101 id new
                    (awaiting k)
                    s
                  ≡ done (some d))
                × IsDrained id (queue.items s.scancode_queue) k s.cell d)
    unfolding poll_keypresses stream_new
    poll_keypresses_lem id new k s = (
      λ fresh.
          let (cell, made, init) = once.first_init s.cell fresh in
          let (d, went, r) =
            drain_lem [] id 101 new (record s { cell = cell; scancode_queue = queue.new 100 }) init
              (queue.items-new 100) (omega arith) in
          (
            d,
            rw (poll_keypresses, stream_new, made) went,
            ap (λ x. once.try_get x) r.cell_same ∙ init,
            record {
              decodes = r.decodes;
              emptied = r.emptied;
              enlisted = r.enlisted;
              cell_same = refl;
            },
          ),
      λ init room.
          drain_lem (queue.items s.scancode_queue) id 101 k s init refl (omega (arith, room)),
    )
