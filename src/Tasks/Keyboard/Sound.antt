-- ===== src/Tasks/Keyboard/Sound.antt =====
-- src/task/keyboard.rs: no scancode that was queued is lost, and no wake-up is missed.
use blog_os.Base.{
  ℕ, ◌≡◌, refl, ap, sym, ◌∙◌, subst, List, [], ◌∷◌, ◌++◌, append_assoc, append-nil, length, Option,
  some, done, done-injective, Bool, true, false, ◌||◌, ◌==◌, ◌⊎◌, inl, inr, arith,
}
use blog_os.Tasks.Queues.{ArrayQueue}
use blog_os.Tasks.Keyboard.{
  OnceCell, AtomicWaker, Statics, Added, queued, add_scancode, register, take_waker, stream_new,
}
use blog_os.Tasks.Keyboard.Calls.{add_scancode_lem, pop-some, pop-none}
use blog_os.Tasks.Keyboard.Interleaving.{
  Place, outside, checked, registered, holding, waiting, System, calls, accepts, Step, interrupt,
  fast, check, enlist, second, wait, finish, Reach, here, next, started,
}

-- The scancode that the reader took and has not returned.
abbrev pub in_hand : Place → List ℕ
in_hand outside = []
in_hand checked = []
in_hand registered = []
in_hand (holding c) = c ∷ []
in_hand waiting = []

or_false : (b : Bool) → b ≡ (b || false)
or_false true = refl
or_false false = refl

noticed :
    (id : ℕ) (notified : Bool) (called : Option ℕ)
    → called ≡ some id
    → (notified || calls id (queued called)) ≡ true
noticed id true called e = refl
noticed id false called e =
    let own : (id == id) ≡ true = ground arith in ap (λ w. calls id (queued w)) e ∙ own

nothing_in_hand : (place : Place) → (place ≡ outside) ⊎ (place ≡ waiting) → in_hand place ≡ []
nothing_in_hand place (inl e) = ap in_hand e
nothing_in_hand place (inr e) = ap in_hand e

module _ {C Q A : Type 0} ⦃once : OnceCell C⦄ ⦃queue : ArrayQueue Q ℕ⦄ ⦃atomic : AtomicWaker A⦄
    (id : ℕ) where
  -- What the reader may rely on where it stands.
  abbrev Reader : Place → Bool → Statics C Q A → Type 0
  Reader outside notified s = Unit {0}
  Reader checked notified s = Unit {0}
  Reader registered notified s = (notified ≡ true) ⊎ (atomic.registered s.scancode_waker ≡ some id)
  Reader (holding c) notified s = Unit {0}
  Reader waiting notified s =
      (notified ≡ true)
      ⊎ ((atomic.registered s.scancode_waker ≡ some id) × (queue.items s.scancode_queue ≡ []))

  pub record IsSound (s : System C Q A) : Type 0 where
    pub initialized : once.try_get s.statics.cell ≡ true
    pub capacity : queue.cap s.statics.scancode_queue ≡ 100
    pub in_order :
        s.accepted ≡ s.delivered ++ (in_hand s.place ++ queue.items s.statics.scancode_queue)
    pub reader : Reader s.place s.notified s.statics

  called-Reader :
      (place : Place) (notified : Bool) (scancode : ℕ) (s s' : Statics C Q A)
      → Reader place notified s
      → Reader place (notified || calls id (queued (atomic.registered s.scancode_waker))) s'
  called-Reader outside notified scancode s s' r = tt
  called-Reader checked notified scancode s s' r = tt
  called-Reader (holding c) notified scancode s s' r = tt
  called-Reader registered notified scancode s s' (inl e) = inl (rw e refl)
  called-Reader registered notified scancode s s' (inr e) = inl (noticed id notified _ e)
  called-Reader waiting notified scancode s s' (inl e) = inl (rw e refl)
  called-Reader waiting notified scancode s s' (inr (e, empty)) = inl (noticed id notified _ e)

  -- The system is sound with what the handler leaves.
  abbrev After : System C Q A → ℕ → Added × Statics C Q A → Type 0
  After s scancode r = IsSound (record s {
    statics = r.1;
    notified = s.notified || calls id r.0;
    accepted = s.accepted ++ accepts scancode r.0;
  })

  interrupt-IsSound :
      (s : System C Q A) (scancode : ℕ) {added : Added} {statics : Statics C Q A}
      → IsSound s
      → add_scancode scancode s.statics ≡ (added, statics)
      → IsSound (record s {
        statics = statics;
        notified = s.notified || calls id added;
        accepted = s.accepted ++ accepts scancode added;
      })
  interrupt-IsSound s scancode {added} {statics} h e =
      elim (add_scancode_lem scancode s.statics h.initialized) [
        | inl (refused, full) ↦ subst (After s scancode) (sym refused ∙ e) (record {
          initialized = h.initialized;
          capacity = h.capacity;
          in_order = append-nil s.accepted ∙ h.in_order;
          reader = subst (λ b. Reader s.place b s.statics) (or_false s.notified) h.reader;
        })
        | inr (s', did, q) ↦ subst (After s scancode) (sym did ∙ e) (record {
          initialized = rw q.cell_same h.initialized;
          capacity = q.cap_same ∙ h.capacity;
          in_order =
              ap (λ l. l ++ (scancode ∷ [])) h.in_order
              ∙ append_assoc s.delivered _ (scancode ∷ [])
              ∙ ap (λ l. s.delivered ++ l)
                  (append_assoc (in_hand s.place) _ (scancode ∷ [])
                    ∙ ap (λ l. in_hand s.place ++ l) (sym q.listed));
          reader = called-Reader s.place s.notified scancode s.statics s' h.reader;
        })
      ]

  Step-IsSound : (s t : System C Q A) → IsSound s → Step id s t → IsSound t
  unfolding register take_waker
  Step-IsSound s t h (interrupt scancode e) = interrupt-IsSound s scancode h e
  Step-IsSound s t h (fast c at e) =
      let (first, cap, cell, waker) = pop-some s.statics c _ e in
      record {
        initialized = rw cell h.initialized;
        capacity = cap ∙ h.capacity;
        in_order =
            h.in_order
            ∙ ap (λ l. s.delivered ++ (l ++ queue.items s.statics.scancode_queue))
                (nothing_in_hand s.place at)
            ∙ ap (λ l. s.delivered ++ l) first
            ∙ sym (append_assoc s.delivered (c ∷ []) _);
        reader = tt;
      }
  Step-IsSound s t h (check at e) = record {
    initialized = h.initialized;
    capacity = h.capacity;
    in_order =
        h.in_order
        ∙ ap (λ l. s.delivered ++ (l ++ queue.items s.statics.scancode_queue))
            (nothing_in_hand s.place at);
    reader = tt;
  }
  Step-IsSound s t h (enlist at) = record {
    initialized = h.initialized;
    capacity = h.capacity;
    in_order =
        h.in_order
        ∙ ap (λ l. s.delivered ++ (l ++ queue.items s.statics.scancode_queue)) (ap in_hand at);
    reader = inr (atomic.registered-register _ id);
  }
  Step-IsSound s t h (second c at e) =
      let (first, cap, cell, waker) = pop-some s.statics c _ e in
      record {
        initialized = rw cell h.initialized;
        capacity = cap ∙ h.capacity;
        in_order =
            h.in_order
            ∙ ap (λ l. s.delivered ++ (l ++ queue.items s.statics.scancode_queue)) (ap in_hand at)
            ∙ ap (λ l. s.delivered ++ l) first;
        reader = tt;
      }
  Step-IsSound s t h (wait at e) = record {
    initialized = h.initialized;
    capacity = h.capacity;
    in_order =
        h.in_order
        ∙ ap (λ l. s.delivered ++ (l ++ queue.items s.statics.scancode_queue)) (ap in_hand at);
    reader = elim (subst (λ p. Reader p s.notified s.statics) at h.reader) [
      | inl told ↦ inl told
      | inr own ↦ inr (own, pop-none s.statics e)
    ];
  }
  Step-IsSound s t h (finish c at) = record {
    initialized = h.initialized;
    capacity = h.capacity;
    in_order =
        h.in_order
        ∙ ap (λ l. s.delivered ++ (l ++ queue.items s.statics.scancode_queue)) (ap in_hand at)
        ∙ sym (append_assoc s.delivered (c ∷ []) _);
    reader = tt;
  }

  started-IsSound :
      (s s' : Statics C Q A)
      → stream_new s ≡ done s'
      → once.try_get s.cell ≡ false
      → IsSound (started s')
  unfolding stream_new
  started-IsSound s s' e fresh =
      let (cell, made, init) = once.first_init s.cell fresh in
      let same = done-injective _ _ (rw (stream_new, made) at e) in
      subst (λ t. IsSound (started t)) same
        (record {
          initialized = init;
          capacity = queue.cap-new 100;
          in_order = sym (queue.items-new 100);
          reader = tt;
        })

  from-IsSound : (s t : System C Q A) → IsSound s → Reach id s t → IsSound t
  from-IsSound s t h here = h
  from-IsSound s t h (next before step) = Step-IsSound _ t (from-IsSound s _ h before) step

  module _ (s s' : Statics C Q A) (t : System C Q A) (made : stream_new s ≡ done s')
      (fresh : once.try_get s.cell ≡ false) (r : Reach id (started s') t) where
    -- Whatever the order of the reader's steps and the keyboard interrupts after the first
    -- `ScancodeStream::new`: the scancodes that were queued are those that `poll_next` returned, the
    -- one that it holds and those in the queue, in this order.
    pub Reach-in_order :
        t.accepted ≡ t.delivered ++ (in_hand t.place ++ queue.items t.statics.scancode_queue)
    Reach-in_order = (from-IsSound (started s') t (started-IsSound s s' made fresh) r).in_order

    -- A reader that was left with `Pending` was notified since it began to poll, or the queue is
    -- empty and the next keyboard interrupt queues its scancode and calls the reader's waker.
    pub waiting-notified :
        t.place ≡ waiting
        → (t.notified ≡ true)
          ⊎ ((queue.items t.statics.scancode_queue ≡ [])
              × ((scancode : ℕ)
                  → (statics : Statics C Q A) × (add_scancode scancode t.statics
                      ≡ (queued (some id), statics))
                    × (queue.items statics.scancode_queue ≡ scancode ∷ [])))
    waiting-notified at =
        let h = from-IsSound (started s') t (started-IsSound s s' made fresh) r in
        elim (subst (λ p. Reader p t.notified t.statics) at h.reader) [
          | inl told ↦ inl told
          | inr (own, empty) ↦ inr (
            empty,
            λ scancode. elim (add_scancode_lem scancode t.statics h.initialized) [
              | inl (_, full) ↦ absurd (omega (arith, full, h.capacity, ap (λ l. length l) empty))
              | inr (statics, did, q) ↦ (
                statics,
                did ∙ ap (λ w. (queued w, statics)) own,
                q.listed ∙ ap (λ l. l ++ (scancode ∷ [])) empty,
              )
            ],
          )
        ]
