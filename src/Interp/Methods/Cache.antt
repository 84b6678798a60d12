-- ===== src/Interp/Methods/Cache.antt =====
-- GETDYNMET and GETPUBMET find the method of a tag, through the cache or the search.
use ocaml_pro_ocaml_branch.Base.{
  ℕ, ◌+◌, ◌-◌, ◌*◌, ◌/◌, ◌%◌, ◌<◌, ◌≡◌, ◌≢◌, ltb→lt, ltb-false→le, bit_and, inl, inr, true, false,
  some, List, ◌∷◌, length, get_elem?, set, get_elem?-set_ne, get_elem?-set_self, if◌then◌else◌, ltb,
  ◌==◌, Bool-cases, ==_iff, arith, ap, refl, sym, ◌∙◌, lt→ltb,
}
use ocaml_pro_ocaml_branch.Base.Int.{ℤ, pos}
use ocaml_pro_ocaml_branch.Int64.SignedDivision.{wrap64}
use ocaml_pro_ocaml_branch.Interp.Value.{Value, imm, Heap, field}
use ocaml_pro_ocaml_branch.Interp.Machine.{Machine, operand}
use ocaml_pro_ocaml_branch.Interp.Stack.{val_int}
use ocaml_pro_ocaml_branch.Interp.Integers.{signed_lt}
use ocaml_pro_ocaml_branch.Interp.Methods.{getdynmet, field_at, search_and_cache, getpubmet}
use ocaml_pro_ocaml_branch.Interp.Methods.Search.{tag_index, find_tag_lem, signed_lt_irrefl}

-- `meths` is a table of `n` methods and their tags, and field 1 a mask of byte offsets.
true≢false : true ≢ false
true≢false h = ground arith

module _ (h : Heap) (meths : Value) (n : ℕ) (tags : ℕ → ℕ)
    (size : field h meths 0 ≡ some (imm (1 + 2 * n)))
    (stored : (i : ℕ) → i < n → field h meths (tag_index i) ≡ some (imm (tags i)))
    (increasing : (i j : ℕ) → i < j → j < n → signed_lt (tags i) (tags j) ≡ true) (k : ℕ)
    (inside : k < n) (method : Value) (found : field h meths (2 + 2 * k) ≡ some method) where
  before_tag : tag_index k - 1 ≡ 2 + 2 * k
  before_tag = omega arith

  -- Where the tags of a class are in increasing order, GETDYNMET finds the method of a tag that is there.
  pub getdynmet-finds :
      (m : Machine) (obj : Value) (rest : List Value)
      → field h obj 0 ≡ some meths
      → getdynmet (record m { heap = h; sp = obj ∷ rest; accu = imm (tags k) })
        ≡ some (record m { heap = h; sp = obj ∷ rest; accu = method })
  unfolding getdynmet
  getdynmet-finds m obj rest class =
      rw (class, find_tag_lem h meths n tags stored increasing k inside size, before_tag, found)
        refl

  search_and_cache-finds :
      (m : Machine)
      → m.pc < length m.code_area
      → search_and_cache (record m { heap = h }) meths (tags k)
        ≡ some (record m {
          heap = h;
          accu = method;
          pc = m.pc + 1;
          code_area = set m.code_area m.pc (pos ((tag_index k - 3) * 8));
        })
  unfolding search_and_cache
  search_and_cache-finds m room =
      rw
        (
          find_tag_lem h meths n tags stored increasing k inside size,
          lt→ltb m.pc (length m.code_area) room,
          before_tag,
          found,
        )
        refl

  -- Two entries with the same tag are the same.
  same_entry : (j : ℕ) → j < n → tags j ≡ tags k → j ≡ k
  same_entry j jn e = elim (Bool-cases (ltb j k)) [
    | inl less ↦ absurd (
        true≢false (
          sym (increasing j k (ltb→lt j k less) inside)
          ∙ ap (λ (t : ℕ). signed_lt t (tags k)) e
          ∙ signed_lt_irrefl (tags k)))
    | inr above ↦ elim (Bool-cases (ltb k j)) [
      | inl more ↦ absurd (
          true≢false (
            sym (increasing k j (ltb→lt k j more) jn)
            ∙ ap (λ (t : ℕ). signed_lt (tags k) t) e
            ∙ signed_lt_irrefl (tags k)))
      | inr below ↦ omega (arith, ltb-false→le j k above, ltb-false→le k j below)
    ]
  ]

  field_at-entry : (i j : ℕ) → field_at h meths i (16 * j) ≡ field h meths (i + 2 * j)
  field_at-entry i j = rw aligned (ap (λ (q : ℕ). field h meths (i + q)) quotient)
    where
      aligned : (16 * j % 8 == 0) ≡ true
      aligned = ground arith

      quotient : 16 * j / 8 ≡ 2 * j
      quotient = omega arith

  cell_value : (tag_index k - 3) * 8 ≡ 16 * k
  cell_value = omega arith

  -- The cache holds the offset of an entry.
  module _ (obj : Value) (class : field h obj 0 ≡ some meths) (mask : ℕ)
      (masked : field h meths 1 ≡ some (imm mask)) where
    -- What GETPUBMET leaves, with the code that it leaves.
    abbrev pub sent : Machine → List ℤ → Machine
    sent m code = record m {
      heap = h;
      accu = method;
      sp = obj ∷ m.sp;
      pc = m.pc + 1 + 1;
      code_area = code;
    }

    -- The cache is that of the method.
    getpubmet-hits :
        (m : Machine) (d cache : ℤ)
        → operand m ≡ some d
        → val_int d ≡ tags k
        → get_elem? m.code_area (m.pc + 1) ≡ some cache
        → bit_and (wrap64 cache) mask ≡ 16 * k
        → getpubmet (record m { heap = h; accu = obj }) ≡ some (sent m m.code_area)
    unfolding getpubmet
    getpubmet-hits m d cache fetched tag cached_at offset =
        rw
          (
            class,
            fetched,
            tag,
            cached_at,
            masked,
            offset,
            field_at-entry 3 k,
            stored k inside,
            same_tag,
            field_at-entry 2 k,
            found,
          )
          refl
      where
        same_tag : (tags k == tags k) ≡ true
        same_tag = ground arith

    getpubmet-misses :
        (m : Machine) (d cache : ℤ) (j : ℕ)
        → operand m ≡ some d
        → val_int d ≡ tags k
        → get_elem? m.code_area (m.pc + 1) ≡ some cache
        → bit_and (wrap64 cache) mask ≡ 16 * j
        → j < n
        → m.pc + 1 < length m.code_area
        → (tags j == tags k) ≡ false
        → getpubmet (record m { heap = h; accu = obj })
          ≡ some (sent m (set m.code_area (m.pc + 1) (pos (16 * k))))
    unfolding getpubmet
    getpubmet-misses m d cache j fetched tag cached_at offset jn room miss =
        rw (class, fetched, tag, cached_at, masked, offset, field_at-entry 3 j, stored j jn, miss)
          (search_and_cache-finds (record m { pc = m.pc + 1; sp = obj ∷ m.sp; accu = obj }) room
            ∙ ap (λ (c : ℕ). some (sent m (set m.code_area (m.pc + 1) (pos c)))) cell_value)

    -- Where the tags of the class of an object are in increasing order, GETPUBMET finds the method of a
    -- tag that is there, as long as the mask of the class takes what the cache in the code holds to the
    -- offset of an entry of the table; it pushes the object, and steps over its two operands. Only
    -- where that entry has another tag is the code changed, in the cell of the cache alone, to the offset
    -- of the entry found. If the mask keeps that offset, then the same instruction in the code that is
    -- left, reached with any stack, finds the method again and changes nothing.
    pub getpubmet-finds :
        (m : Machine) (d cache : ℤ) (j : ℕ) (sp : List Value)
        → operand m ≡ some d
        → val_int d ≡ tags k
        → get_elem? m.code_area (m.pc + 1) ≡ some cache
        → bit_and (wrap64 cache) mask ≡ 16 * j
        → j < n
        → m.pc + 1 < length m.code_area
        → bit_and (wrap64 (pos (16 * k))) mask ≡ 16 * k
        → let code' =
            if tags j == tags k then m.code_area else set m.code_area (m.pc + 1) (pos (16 * k)) in
          let again = record m { sp = sp; code_area = code' } in
          (getpubmet (record m { heap = h; accu = obj }) ≡ some (sent m code'))
          × (getpubmet (record again { heap = h; accu = obj }) ≡ some (sent again code'))
    getpubmet-finds m d cache j sp fetched tag cached_at offset jn room kept =
        elim (Bool-cases (tags j == tags k)) [
          | inl hit ↦
              let here : bit_and (wrap64 cache) mask ≡ 16 * k =
                offset
                ∙ ap (λ (i : ℕ). 16 * i) (same_entry j jn ((==_iff (tags j) (tags k)).0 hit)) in
              rw hit (
                getpubmet-hits m d cache fetched tag cached_at here,
                getpubmet-hits (record m { sp = sp }) d cache fetched tag cached_at here,
              )
          | inr miss ↦
              let code' = set m.code_area (m.pc + 1) (pos (16 * k)) in
              let other : m.pc + 1 ≢ m.pc = λ e. omega (arith, e) in
              rw miss (
                getpubmet-misses m d cache j fetched tag cached_at offset jn room miss,
                getpubmet-hits (record m { sp = sp; code_area = code' }) d (pos (16 * k))
                    (get_elem?-set_ne m.code_area (pos (16 * k)) other ∙ fetched) tag
                    (get_elem?-set_self m.code_area (m.pc + 1) (pos (16 * k)) room) kept,
              )
        ]
