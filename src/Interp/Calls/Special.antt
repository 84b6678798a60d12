-- ===== src/Interp/Calls/Special.antt =====
-- The applications to one, two and three arguments against the general ones.
use ocaml_pro_ocaml_branch.Base.{
  ℕ, suc, ◌+◌, ◌≡◌, Option, none, some, List, [], ◌∷◌, get_elem?, ltb, if◌then◌else◌, ◌>>=◌, arith,
  ap, refl, sym, ◌∙◌, le→leb, length, take, length-append, ◌++◌, zero, Bool, true, false,
}
use ocaml_pro_ocaml_branch.Base.Int.{pos}
use ocaml_pro_ocaml_branch.Interp.Value.{Value}
use ocaml_pro_ocaml_branch.Interp.Machine.{Machine, Runtime, pop_words, natural}
use ocaml_pro_ocaml_branch.Interp.Calls.{
  return_frame, apply, apply1, apply2, apply3, appterm, appterm1, appterm2, appterm3, enter,
  checked, slide, slot_rest,
}

module _ (f : List Value → List Value) (k : List Value → Option Machine) where
  slot_checked :
      (t : Bool) (q : Option (List Value))
      → ((q >>= λ ws. if t then none else some ws) >>= λ ws. k (f ws))
        ≡ ((q >>= λ ws. if t then none else some (f ws)) >>= k)
  slot_checked t none = refl
  slot_checked true (some ws) = refl
  slot_checked false (some ws) = refl

  slot_then :
      (n : ℕ) (sp : List Value) (o : Option ℕ)
      → ((o >>= λ slot. pop_words slot sp >>= λ ws. if ltb slot n then none else some ws) >>= λ ws.
          k (f ws))
        ≡ (o >>= λ slot.
            (pop_words slot sp >>= λ ws. if ltb slot n then none else some (f ws)) >>= k)
  slot_then n sp none = refl
  slot_then n sp (some slot) = slot_checked (ltb slot n) (pop_words slot sp)

-- The words kept, where they are on the stack.
slide_lem :
    (n slot : ℕ) (args rest : List Value)
    → length args ≡ n
    → slide n slot (args ++ rest)
      ≡ (pop_words slot (args ++ rest) >>= λ ws. if ltb slot n then none else some (args ++ ws))
slide_lem n slot args rest h =
    rw (le→leb n (length (args ++ rest)) (omega (arith, length-append args rest)), kept args n h)
      refl
  where
    kept : (args : List Value) (n : ℕ) → length args ≡ n → take n (args ++ rest) ≡ args
    kept [] zero h = refl
    kept [] (suc n) h = absurd (omega arith)
    kept (v ∷ vs) zero h = absurd (omega arith)
    kept (v ∷ vs) (suc n) h = ap (λ (ws : List Value). v ∷ ws) (kept vs n (omega arith))

module _ (r : Runtime) (m : Machine) (p : ℕ) (v1 v2 v3 : Value) (rest : List Value) where
  apply1-apply :
      get_elem? m.code_area p ≡ some (pos 1)
      → apply1 r (record m { sp = v1 ∷ rest })
        ≡ apply r (record m { pc = p; sp = v1 ∷ return_frame m m.pc rest })
  unfolding apply1 apply
  apply1-apply h = rw h refl

  apply2-apply :
      get_elem? m.code_area p ≡ some (pos 2)
      → apply2 r (record m { sp = v1 ∷ v2 ∷ rest })
        ≡ apply r (record m { pc = p; sp = v1 ∷ v2 ∷ return_frame m m.pc rest })
  unfolding apply2 apply
  apply2-apply h = rw h refl

  apply3-apply :
      get_elem? m.code_area p ≡ some (pos 3)
      → apply3 r (record m { sp = v1 ∷ v2 ∷ v3 ∷ rest })
        ≡ apply r (record m { pc = p; sp = v1 ∷ v2 ∷ v3 ∷ return_frame m m.pc rest })
  unfolding apply3 apply
  apply3-apply h = rw h refl

  -- What an application does with the new stack.
  entered : ℕ → List Value → Option Machine
  entered extra sp' = enter (record m { sp = sp' }) (m.extra_args + extra)

  appterm-entered :
      (n : ℕ) (args : List Value)
      → get_elem? m.code_area p ≡ some (pos (suc n))
      → get_elem? m.code_area (p + 1) ≡ get_elem? m.code_area m.pc
      → length args ≡ suc n
      → appterm r (record m { pc = p; sp = args ++ rest })
        ≡ checked r
            (slot_rest (record m { sp = args ++ rest }) (suc n) >>= λ ws. entered n (args ++ ws))
  unfolding appterm entered
  appterm-entered n args h k l =
      rw (h, k)
        (ap (checked r) (
          (λ i. (get_elem? m.code_area m.pc >>= natural) >>= λ slot.
          slide_lem (suc n) slot args rest l i >>= entered n)
          ∙ sym (
              slot_then (λ ws. args ++ ws) (entered n) (suc n) (args ++ rest)
                (get_elem? m.code_area m.pc >>= natural))))

  extra_zero : m.extra_args + 0 ≡ m.extra_args
  extra_zero = omega arith

  appterm1-appterm :
      get_elem? m.code_area p ≡ some (pos 1)
      → get_elem? m.code_area (p + 1) ≡ get_elem? m.code_area m.pc
      → appterm1 r (record m { sp = v1 ∷ rest }) ≡ appterm r (record m { pc = p; sp = v1 ∷ rest })
  unfolding appterm1 entered
  appterm1-appterm h k = sym (
      appterm-entered 0 (v1 ∷ []) h k refl
      ∙ ap
          (λ (e : ℕ). checked r (
            slot_rest (record m { sp = v1 ∷ rest }) 1 >>= λ ws.
            enter (record m { sp = v1 ∷ ws }) e))
          extra_zero)

  appterm2-appterm :
      get_elem? m.code_area p ≡ some (pos 2)
      → get_elem? m.code_area (p + 1) ≡ get_elem? m.code_area m.pc
      → appterm2 r (record m { sp = v1 ∷ v2 ∷ rest })
        ≡ appterm r (record m { pc = p; sp = v1 ∷ v2 ∷ rest })
  unfolding appterm2 entered
  appterm2-appterm h k = sym (appterm-entered 1 (v1 ∷ v2 ∷ []) h k refl)

  appterm3-appterm :
      get_elem? m.code_area p ≡ some (pos 3)
      → get_elem? m.code_area (p + 1) ≡ get_elem? m.code_area m.pc
      → appterm3 r (record m { sp = v1 ∷ v2 ∷ v3 ∷ rest })
        ≡ appterm r (record m { pc = p; sp = v1 ∷ v2 ∷ v3 ∷ rest })
  unfolding appterm3 entered
  appterm3-appterm h k = sym (appterm-entered 2 (v1 ∷ v2 ∷ v3 ∷ []) h k refl)

-- Where the code has the operands at p, q and s, the short instructions do what the general ones do:
-- APPLY1 to APPLY3, with the return address put under their arguments, what APPLY does on a stack
-- where PUSH_RETADDR put it before the arguments were pushed; APPTERM1 to APPTERM3, for every size of
-- the frame, what APPTERM does with the same size.
pub special_lem :
    (r : Runtime) (m : Machine) (p q s : ℕ) (v1 v2 v3 : Value) (rest : List Value)
    → get_elem? m.code_area p ≡ some (pos 1)
    → get_elem? m.code_area q ≡ some (pos 2)
    → get_elem? m.code_area s ≡ some (pos 3)
    → get_elem? m.code_area (p + 1) ≡ get_elem? m.code_area m.pc
    → get_elem? m.code_area (q + 1) ≡ get_elem? m.code_area m.pc
    → get_elem? m.code_area (s + 1) ≡ get_elem? m.code_area m.pc
    → let one = v1 ∷ rest in
      let two = v1 ∷ v2 ∷ rest in
      let three = v1 ∷ v2 ∷ v3 ∷ rest in
      let frame = return_frame m m.pc rest in
      (apply1 r (record m { sp = one }) ≡ apply r (record m { pc = p; sp = v1 ∷ frame }))
      × (apply2 r (record m { sp = two }) ≡ apply r (record m { pc = q; sp = v1 ∷ v2 ∷ frame }))
      × (apply3 r (record m { sp = three })
          ≡ apply r (record m { pc = s; sp = v1 ∷ v2 ∷ v3 ∷ frame }))
      × (appterm1 r (record m { sp = one }) ≡ appterm r (record m { pc = p; sp = one }))
      × (appterm2 r (record m { sp = two }) ≡ appterm r (record m { pc = q; sp = two }))
      × (appterm3 r (record m { sp = three }) ≡ appterm r (record m { pc = s; sp = three }))
special_lem r m p q s v1 v2 v3 rest hp hq hs kp kq ks = (
  apply1-apply r m p v1 v2 v3 rest hp,
  apply2-apply r m q v1 v2 v3 rest hq,
  apply3-apply r m s v1 v2 v3 rest hs,
  appterm1-appterm r m p v1 v2 v3 rest hp kp,
  appterm2-appterm r m q v1 v2 v3 rest hq kq,
  appterm3-appterm r m s v1 v2 v3 rest hs ks,
)
