-- ===== src/Io/Input/Scan.antt =====
-- What caml_input_scan_line does to the buffer: the shift, the fill, and the byte that it looks at.
use ocaml_pro_ocaml_branch.Base.{
  ℕ, zero, suc, ◌+◌, ◌-◌, ◌≤◌, ◌<◌, ◌≡◌, Bool, true, false, not, ◌&&◌, List, [], ◌∷◌, ◌++◌, length,
  take, drop, get_or, get_elem?, some, ltb, ◌==◌, if◌then◌else◌, refl, sym, ap, ap₂, ◌∙◌, arith,
  length-take, length-drop,
}
use ocaml_pro_ocaml_branch.Io.Channel.{Channel, System, done, Port}
use ocaml_pro_ocaml_branch.Base.Buffers.{
  slice, blit, length-blit, take-blit, drop-drop, take-append-drop_rest,
}
use ocaml_pro_ocaml_branch.Io.Input.{byte_at, scan_shift, pos_in}
use ocaml_pro_ocaml_branch.Io.Input.Window.{unread, IsInput, buffered, Read, Gets}

-- No byte is a newline.
unfoldable pub plain : List ℕ → Bool
plain [] = true
plain (b ∷ bytes) = not (b == 10) && plain bytes

get_elem?-take : (xs : List ℕ) (n i : ℕ) → i < n → get_elem? (take n xs) i ≡ get_elem? xs i
get_elem?-take [] zero i l = refl
get_elem?-take [] (suc n) i l = refl
get_elem?-take (x ∷ xs) zero i l = absurd (omega arith)
get_elem?-take (x ∷ xs) (suc n) zero l = refl
get_elem?-take (x ∷ xs) (suc n) (suc i) l = get_elem?-take xs n i (omega arith)

get_elem?-get_or : (xs : List ℕ) (i : ℕ) → i < length xs → get_elem? xs i ≡ some (get_or xs i 0)
get_elem?-get_or [] i h = absurd (omega arith)
get_elem?-get_or (x ∷ xs) zero h = refl
get_elem?-get_or (x ∷ xs) (suc i) h = get_elem?-get_or xs i (omega arith)

sub_zero : (i : ℕ) → i - 0 ≡ i
sub_zero i = omega arith

suc_sub : (i n : ℕ) → suc i - suc n ≡ i - n
suc_sub i n = omega arith

suc_one : (n : ℕ) → suc n + 1 ≡ suc (n + 1)
suc_one n = omega arith

get_elem?-drop :
    (xs : List ℕ) (n i : ℕ)
    → n ≤ i
    → i < length xs
    → get_elem? (drop n xs) (i - n) ≡ some (get_or xs i 0)
get_elem?-drop [] n i l h = absurd (omega arith)
get_elem?-drop (x ∷ xs) zero zero l h = refl
get_elem?-drop (x ∷ xs) zero (suc i) l h =
    ap (get_elem? (x ∷ xs)) (sub_zero (suc i)) ∙ get_elem?-get_or (x ∷ xs) (suc i) h
get_elem?-drop (x ∷ xs) (suc n) zero l h = absurd (omega arith)
get_elem?-drop (x ∷ xs) (suc n) (suc i) l h =
    ap (get_elem? (drop n xs)) (suc_sub i n) ∙ get_elem?-drop xs n i (omega arith) (omega arith)

and_more : (t u w : Bool) → t && u ≡ true → (u ≡ true → w ≡ true) → t && w ≡ true
and_more true u w h k = k h
and_more false u w h k = absurd (ground arith)

-- One more byte that is no newline.
pub plain_more :
    (xs : List ℕ) (n b : ℕ)
    → plain (take n xs) ≡ true
    → get_elem? xs n ≡ some b
    → (b == 10) ≡ false
    → plain (take (n + 1) xs) ≡ true
unfolding plain
plain_more [] n b h e k = absurd (ground arith)
plain_more (x ∷ xs) zero b h e k = ground arith
plain_more (x ∷ xs) (suc n) b h e k =
    ap (λ k. plain (take k (x ∷ xs))) (suc_one n)
    ∙ and_more (not (x == 10)) (plain (take n xs)) (plain (take (n + 1) xs)) h
        (λ h'. plain_more xs n b h' e k)

-- The byte at a place of the buffer between `curr` and `max`.
pub byte_unread :
    (p : Port) (i : ℕ)
    → IsInput p
    → p.channel.curr ≤ i
    → i < p.channel.max
    → get_elem? (unread p) (i - p.channel.curr) ≡ some (byte_at p.channel.buff i)
byte_unread p i v l l' =
    let c = p.channel in
    sym (get_elem?-take (unread p) (c.max - c.curr) (i - c.curr) (omega (arith, l, l')))
    ∙ ap (λ (xs : List ℕ). get_elem? xs (i - c.curr))
        (sym (buffered p (c.max - c.curr) v (omega arith)))
    ∙ get_elem?-take (drop c.curr c.buff) (c.max - c.curr) (i - c.curr) (omega (arith, l, l'))
    ∙ get_elem?-drop c.buff c.curr i l (omega (arith, l', v.bounded))

-- The channel holds as much of the file, from the same place of it.
pub record Same (p p' : Port) : Type 0 where
  pub valid : IsInput p'
  pub same_place : pos_in p'.channel ≡ pos_in p.channel
  pub same_file : p'.system.file ≡ p.system.file
  pub same_size : length p'.channel.buff ≡ length p.channel.buff

pub Same-refl : (p : Port) → IsInput p → Same p p
Same-refl p v = record { valid = v; same_place = refl; same_file = refl; same_size = refl }

pub Same-trans : {p p' p'' : Port} → Same p p' → Same p' p'' → Same p p''
Same-trans s t = record {
  valid = t.valid;
  same_place = t.same_place ∙ s.same_place;
  same_file = t.same_file ∙ s.same_file;
  same_size = t.same_size ∙ s.same_size;
}

pub Gets-Same : (p p' : Port) → Gets p [] p' → Same p p'
Gets-Same p p' g = record {
  valid = g.valid;
  same_place = omega (arith, g.advanced);
  same_file = g.same_file;
  same_size = g.same_size;
}

pub unread_kept : {p p' : Port} → Same p p' → unread p' ≡ unread p
unread_kept s = ap₂ (λ (k : ℕ) (xs : List ℕ). drop k xs) s.same_place s.same_file

-- The shift keeps what waits, and puts it at the beginning.
pub record Shifted (p : Port) (c' : Channel) : Type 0 where
  pub same : Same p (record p { channel = c' })
  pub at_start : c'.curr ≡ 0
  pub waiting_bytes : c'.max ≡ p.channel.max - p.channel.curr

if-Shifted :
    (t : Bool) (p : Port) (x y : Channel)
    → (t ≡ true → Shifted p x)
    → (t ≡ false → Shifted p y)
    → Shifted p (if t then x else y)
if-Shifted true p x y k k' = k refl
if-Shifted false p x y k k' = k' refl

pub scan_shift-Shifted : (p : Port) → IsInput p → Shifted p (scan_shift p.channel)
unfolding scan_shift pos_in
scan_shift-Shifted p v =
    let c = p.channel in
    let n = c.max - c.curr in
    let part = slice c.buff c.curr n in
    let size_part : length part ≡ n = omega (
      arith,
      length-take {0} n (drop c.curr c.buff),
      length-drop {0} c.curr c.buff,
      v.bounded,
      v.within,
    ) in
    let size = length-blit c.buff 0 part (omega (arith, size_part, v.bounded)) in
    if-Shifted (ltb 0 c.curr) p _ _
      (λ h. record {
        same = record {
          valid = record {
            within = omega arith;
            bounded = omega (arith, size, v.bounded);
            nonempty = omega (arith, size, v.nonempty);
            in_step = v.in_step;
            reach = omega (arith, v.reach);
            window =
                take-blit c.buff 0 part n (omega arith) (omega (arith, size_part))
                ∙ buffered p n v (omega arith);
          };
          same_place = omega arith;
          same_file = refl;
          same_size = size;
        };
        at_start = refl;
        waiting_bytes = refl;
      })
      (λ h. record { same = Same-refl p v; at_start = ground arith; waiting_bytes = ground arith })

-- A read behind `max`.
pub filled-Same :
    (p : Port) (s' : System) (bytes : List ℕ)
    → IsInput p
    → Read (length p.channel.buff - p.channel.max) p.system s' (done bytes)
    → Same p (record p {
      channel = record p.channel {
        offset = p.channel.offset + length bytes;
        max = p.channel.max + length bytes;
        buff = blit p.channel.buff p.channel.max bytes;
      };
      system = s';
    })
unfolding pos_in
filled-Same p s' bytes v d =
    let c = p.channel in
    let file = p.system.file in
    let size = length-blit c.buff c.max bytes (omega (arith, d.bounded, v.bounded)) in
    let start : c.offset - c.max + c.max ≡ p.system.position = omega (arith, v.reach, v.in_step) in
    let start' : c.offset - c.max ≡ c.offset + length bytes - (c.max + length bytes) =
      omega arith in
    let count : length bytes ≡ c.max + length bytes - c.max = omega arith in
    record {
      valid = record {
        within = omega (arith, v.within);
        bounded = omega (arith, size, d.bounded, v.bounded);
        nonempty = omega (arith, size, v.nonempty);
        in_step = omega (arith, d.moved, v.in_step);
        reach = omega (arith, v.reach);
        window =
            take-blit c.buff c.max bytes (c.max + length bytes) v.bounded refl
            ∙ ap₂ (λ (xs ys : List ℕ). xs ++ ys) v.window
                (d.next
                  ∙ ap₂ (λ (k : ℕ) (xs : List ℕ). take k xs) count
                      (ap (λ k. drop k file) (sym start)
                        ∙ sym (drop-drop (c.offset - c.max) c.max file)))
            ∙ take-append-drop_rest c.max (c.max + length bytes) (drop (c.offset - c.max) file)
                (omega arith)
            ∙ ap₂ (λ (k : ℕ) (xs : List ℕ). take (c.max + length bytes) (drop k xs)) start'
                (sym d.same_file);
      };
      same_place = omega (arith, v.within, v.reach);
      same_file = d.same_file;
      same_size = size;
    }

-- At the end of the file nothing but what waits is left of it.
pub waiting_last :
    (p : Port)
    → IsInput p
    → drop p.system.position p.system.file ≡ []
    → p.channel.max - p.channel.curr ≡ length (unread p)
unfolding pos_in
waiting_last p v e =
    let c = p.channel in
    let file = p.system.file in
    omega (
      arith,
      ap length e,
      length-drop {0} p.system.position file,
      ap length v.window,
      length-take {0} c.max c.buff,
      length-take {0} c.max (drop (c.offset - c.max) file),
      length-drop {0} (c.offset - c.max) file,
      length-drop {0} (c.offset - (c.max - c.curr)) file,
      v.within,
      v.bounded,
      v.reach,
      v.in_step,
    )
