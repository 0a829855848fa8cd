-- ===== src/Dev/Keyboard/Typing.antt =====
-- What typing at the keyboard of kernel/dev/ps2.c sends to a terminal.
use monolith.Dev.Keyboard.{
  Keyboard, apply_modifiers, interrupt_handler, regular_scancodes, route, shifted_scancodes,
  table_of, tty_byte,
}
use monolith.Prelude.{
  ==-ne, ==_iff, Bool, Bool-cases, List, [], ap, append-nil, arith, false, get_or, inl, inr, leb,
  map, none, not, refl, some, sym, true, ℕ, ◌%◌, ◌&&◌, ◌++◌, ◌+◌, ◌==◌, ◌||◌, ◌∙◌, ◌∷◌, ◌≡◌, ◌≤◌,
}

-- the bytes for the terminal, over a sequence of scan codes
unfoldable pub typed : Keyboard → List ℕ → List ℕ
typed k [] = []
typed k (b ∷ bs) =
    let (k', out) = interrupt_handler k b in
    elim out [ none ↦ typed k' bs | some c ↦ c ∷ typed k' bs ]

-- a key with a byte in the tables, pressed and released
abbrev pub is_plain : ℕ → Bool
is_plain c =
    (leb c 0x39 && not (get_or regular_scancodes c 0 == 0))
    && not (get_or shifted_scancodes c 0 == 0)

abbrev pub strokes : List ℕ → List ℕ
strokes [] = []
strokes (c ∷ cs) = c ∷ (c + 0x80) ∷ strokes cs

abbrev pub AllPlain : List ℕ → Type 0
AllPlain [] = Unit {0}
AllPlain (c ∷ cs) = (is_plain c ≡ true) × AllPlain cs

-- a keyboard that types at a terminal, with no key held but perhaps shift
abbrev pub AtTerminal : Keyboard → Type 0
AtTerminal k = (k.owner ≡ none) × (k.has_tty ≡ true) × (k.ctrl ≡ false)

plain_ne : (c j : ℕ) → get_or regular_scancodes j 0 ≡ 0 → is_plain c ≡ true → (c == j) ≡ false
plain_ne c j z p =
    ==-ne c j
      (λ e. let here0 : get_or regular_scancodes c 0 ≡ 0 = rw e z in ground (arith, p, here0))

plain-apply_modifiers :
    (k : Keyboard) (c : ℕ) (released : Bool) → is_plain c ≡ true → apply_modifiers k c released ≡ k
unfolding apply_modifiers
plain-apply_modifiers k c released p =
    rw (plain_ne c 0x2a refl p, plain_ne c 0x36 refl p, plain_ne c 0x1d refl p) refl

plain_bounds : (c : ℕ) → is_plain c ≡ true → c ≤ 0x39
plain_bounds c p = ground (arith, p)

plain-table : (k : Keyboard) (c : ℕ) → is_plain c ≡ true → (get_or (table_of k) c 0 == 0) ≡ false
plain-table k c p = elim (Bool-cases k.shift) [
  | inl e ↦ rw e (ground (arith, p))
  | inr e ↦ rw e (ground (arith, p))
]

-- at a terminal a press sends the byte of the key, and a release nothing
route-press :
    (k : Keyboard) (c : ℕ)
    → AtTerminal k
    → is_plain c ≡ true
    → route k c false ≡ (k, some (get_or (table_of k) c 0))
unfolding route tty_byte
route-press k c t p = ground (arith, t, plain_bounds c p, plain-table k c p)

route-release : (k : Keyboard) (c : ℕ) → AtTerminal k → route k c true ≡ (k, none)
unfolding route
route-release k c t = ground (arith, t)

press :
    (k : Keyboard) (c : ℕ)
    → AtTerminal k
    → is_plain c ≡ true
    → interrupt_handler k c ≡ (k, some (get_or (table_of k) c 0))
unfolding interrupt_handler
press k c t p =
    let low = plain_bounds c p in
    let r : leb 0x80 c ≡ false = ground (arith, low) in
    let m : c % 0x80 ≡ c = omega (arith, low) in
    rw (interrupt_handler, r, m, plain-apply_modifiers k c false p) (route-press k c t p)

release :
    (k : Keyboard) (c : ℕ)
    → AtTerminal k
    → is_plain c ≡ true
    → interrupt_handler k (c + 0x80) ≡ (k, none)
unfolding interrupt_handler
release k c t p =
    let low = plain_bounds c p in
    let r : leb 0x80 (c + 0x80) ≡ true = ground (arith, low) in
    let m : (c + 0x80) % 0x80 ≡ c = omega (arith, low) in
    rw (interrupt_handler, r, m, plain-apply_modifiers k c true p) (route-release k c t)

typed-some :
    (k : Keyboard) (b c : ℕ) (bs : List ℕ) (k' : Keyboard)
    → interrupt_handler k b ≡ (k', some c)
    → typed k (b ∷ bs) ≡ c ∷ typed k' bs
unfolding typed
typed-some k b c bs k' h = ground (arith, h)

typed-none :
    (k : Keyboard) (b : ℕ) (bs : List ℕ) (k' : Keyboard)
    → interrupt_handler k b ≡ (k', none)
    → typed k (b ∷ bs) ≡ typed k' bs
unfolding typed
typed-none k b bs k' h = ground (arith, h)

typed-strokes :
    (k : Keyboard) (cs bs : List ℕ)
    → AtTerminal k
    → AllPlain cs
    → typed k (strokes cs ++ bs) ≡ map (λ c. get_or (table_of k) c 0) cs ++ typed k bs
unfolding typed
typed-strokes k [] bs t p = refl
typed-strokes k (c ∷ cs) bs t p =
    typed-some k c (get_or (table_of k) c 0) ((c + 0x80) ∷ (strokes cs ++ bs)) k (press k c t p.0)
    ∙ ap (λ xs. get_or (table_of k) c 0 ∷ xs)
        (typed-none k (c + 0x80) (strokes cs ++ bs) k (release k c t p.0)
          ∙ typed-strokes k cs bs t p.1)

shift_change :
    (k : Keyboard) (j : ℕ)
    → AtTerminal k
    → ((j == 0x2a) || (j == 0x36)) ≡ true
    → (interrupt_handler k j ≡ (record k { shift = true }, none))
      × (interrupt_handler k (j + 0x80) ≡ (record k { shift = false }, none))
unfolding interrupt_handler apply_modifiers route tty_byte
shift_change k j (owner, tty, ctrl) s = elim (Bool-cases (j == 0x2a)) [
  | inl e ↦
      let at : j ≡ 0x2a = (==_iff j 0x2a).0 e in
      rw at (ground (arith, owner, tty), ground (arith, owner, tty))
  | inr e ↦
      let at : j ≡ 0x36 = (==_iff j 0x36).0 (ground (arith, s, e)) in
      rw at (ground (arith, owner, tty), ground (arith, owner, tty))
]

-- With shift held, the keys of `cs` send their shifted bytes; after it is let go, those of `ds` send
-- their plain bytes. Both shift keys do, and releasing a key sends nothing.
pub typed-shifted :
    (k : Keyboard) (shift_key : ℕ) (cs ds : List ℕ)
    → AtTerminal k
    → ((shift_key == 0x2a) || (shift_key == 0x36)) ≡ true
    → AllPlain cs
    → AllPlain ds
    → typed k ((shift_key ∷ strokes cs) ++ ((shift_key + 0x80) ∷ strokes ds))
      ≡ map (λ c. get_or shifted_scancodes c 0) cs ++ map (λ c. get_or regular_scancodes c 0) ds
unfolding typed
typed-shifted k shift_key cs ds t s p q =
    let held : Keyboard = record k { shift = true } in
    let free : Keyboard = record k { shift = false } in
    let bs : List ℕ = (shift_key + 0x80) ∷ strokes ds in
    typed-none k shift_key (strokes cs ++ bs) held (shift_change k shift_key t s).0
    ∙ typed-strokes held cs bs t p
    ∙ ap (λ xs. map (λ c. get_or shifted_scancodes c 0) cs ++ xs)
        (typed-none held (shift_key + 0x80) (strokes ds) free (shift_change held shift_key t s).1
          ∙ ap (typed free) (sym (append-nil (strokes ds)))
          ∙ typed-strokes free ds [] t q
          ∙ append-nil (map (λ c. get_or regular_scancodes c 0) ds))
