-- ===== src/Order/Amounts/Laws.antt =====
-- What an order's amounts satisfy once they are validated.
use openpay.Base.{
  ℕ, ◌+◌, ◌<◌, ◌≡◌, ◌≢◌, ◌∙◌, sym, ap, refl, true, false, ◌&&◌, ◌||◌, not, List, [], ◌∷◌, All,
  arith, subst,
}
use openpay.Base.Int.{
  ℤ, pos, magnitude, leb_ℤ, ltb_ℤ, eqb_ℤ, ◌+ℤ◌, ◌-ℤ◌, ◌*ℤ◌, ◌≤ℤ◌, ◌<ℤ◌, int_laws, magnitude-+ℤ,
  magnitude-sub, eqb_ℤ_iff,
}
use openpay.Base.Int64.{half, add64, sub64, mul64, add64_exact, sub64_exact, wrap_of_small}
use openpay.Errors.{Result, ok, err, bind-eq-ok, fail_if, fail_if-passes, invalid_argument, ◌>>=◌}
use openpay.Order.Amounts.{
  Line, CreateRequest, is_negative, sum_lines, check_lines, validate_amounts,
}

pub record IsLine (l : Line) : Type 0 where
  pub quantity : pos 0 <ℤ l.quantity
  pub unit_amount : pos 0 ≤ℤ l.unit_amount

-- The lines' amounts, added up without overflow, and a bound on every sum on the way.
abbrev pub line_sum : List Line → ℤ
line_sum [] = pos 0
line_sum (l ∷ ls) = l.quantity *ℤ l.unit_amount +ℤ line_sum ls

abbrev pub line_volume : List Line → ℕ
line_volume [] = 0
line_volume (l ∷ ls) = magnitude (l.quantity *ℤ l.unit_amount) + line_volume ls

mul64_small : (a b : ℤ) → magnitude (a *ℤ b) < half → mul64 a b ≡ a *ℤ b
unfolding mul64
mul64_small a b h = wrap_of_small (a *ℤ b) h

plus_zero : (a : ℤ) → a ≡ a +ℤ pos 0
plus_zero a = omega int_laws

plus_assoc : (a b c : ℤ) → a +ℤ b +ℤ c ≡ a +ℤ (b +ℤ c)
plus_assoc a b c = omega int_laws

refused : (c d : ℤ) → ◌≡◌ {A = Result ℤ} (err invalid_argument) (ok c) → ⊥
refused c d e = cc

sum_lines-cons :
    (acc out : ℤ) (l : Line) (ls : List Line)
    → sum_lines acc (l ∷ ls) ≡ ok out
    → IsLine l × (sum_lines (add64 acc (mul64 l.quantity l.unit_amount)) ls ≡ ok out)
unfolding sum_lines
sum_lines-cons acc out l ls h =
    (record { quantity = ground arith; unit_amount = ground arith }, ground arith)

sum_lines-exact :
    (acc out : ℤ) (ls : List Line)
    → magnitude acc + line_volume ls < half
    → sum_lines acc ls ≡ ok out
    → (out ≡ acc +ℤ line_sum ls) × All IsLine ls
sum_lines-exact acc out [] b h = (unfold sum_lines in ground (arith, plus_zero acc), tt)
sum_lines-exact acc out (l ∷ ls) b h =
    let (line, rest) = sum_lines-cons acc out l ls h in
    let x = l.quantity *ℤ l.unit_amount in
    let e : add64 acc (mul64 l.quantity l.unit_amount) ≡ acc +ℤ x =
      ap (add64 acc) (mul64_small l.quantity l.unit_amount (omega arith))
      ∙ add64_exact acc x (omega arith) in
    let (sum, lines) =
      sum_lines-exact (acc +ℤ x) out ls (omega (arith, magnitude-+ℤ acc x))
        (subst (λ y. sum_lines y ls ≡ ok out) e rest) in
    (sum ∙ plus_assoc acc x (line_sum ls), (line, lines))

-- What `validateAmounts` is to guarantee, in unbounded integers.
pub record AmountsAgree (req : CreateRequest) : Type 0 where
  pub total : pos 0 <ℤ req.total
  pub subtotal : pos 0 ≤ℤ req.subtotal
  pub discount : pos 0 ≤ℤ req.discount
  pub tax : pos 0 ≤ℤ req.tax
  pub discounted : req.discount ≤ℤ req.subtotal
  pub sum : req.subtotal -ℤ req.discount +ℤ req.tax ≡ req.total
  pub lines : All IsLine req.lines
  pub itemised : req.lines ≢ [] → line_sum req.lines ≡ req.subtotal
  pub guest : req.is_guest ≡ true → (req.has_tenders ≡ false) × (req.auto_tender ≡ false)

zero_left : (a : ℤ) → pos 0 +ℤ a ≡ a
zero_left a = omega int_laws

check_lines-exact :
    (req : CreateRequest) (ls : List Line) (u : Unit {0})
    → req.lines ≡ ls
    → line_volume ls < half
    → check_lines req ≡ ok u
    → All IsLine ls × (ls ≢ [] → line_sum ls ≡ req.subtotal)
unfolding check_lines
check_lines-exact req [] u is b h = (tt, λ ne. absurd (ne refl))
check_lines-exact req (l ∷ ls) u is b h =
    let h0 : (sum_lines (pos 0) (l ∷ ls) >>= λ sum.
    fail_if (not (eqb_ℤ sum req.subtotal)) invalid_argument)
        ≡ ok u =
      ground (arith, is, h) in
    let (sum, e, h1) = bind-eq-ok (sum_lines (pos 0) (l ∷ ls)) _ h0 in
    let (exact, lines) = sum_lines-exact (pos 0) sum (l ∷ ls) (omega arith) e in
    let test = fail_if-passes (not (eqb_ℤ sum req.subtotal)) invalid_argument u h1 in
    (
      lines,
      λ ne.
          sym (zero_left (line_sum (l ∷ ls)))
          ∙ sym exact
          ∙ (eqb_ℤ_iff sum req.subtotal).0 (ground (arith, test)),
    )

-- Amounts that `validateAmounts` accepts agree: a positive total, no negative component, a discount
-- of at most the subtotal, subtotal less discount plus tax equal to the total, lines that are
-- positive and add up to the subtotal if there are any, and no wallet share on a guest's order;
-- provided that the components, and the lines' amounts, each add up below 2^63.
pub validate_amounts-AmountsAgree :
    (req : CreateRequest)
    → magnitude req.subtotal + magnitude req.discount + magnitude req.tax < half
    → line_volume req.lines < half
    → validate_amounts req ≡ ok tt
    → AmountsAgree req
unfolding validate_amounts
validate_amounts-AmountsAgree req small lines_small h =
    let (u1, t1, h1) = bind-eq-ok (fail_if (leb_ℤ req.total (pos 0)) invalid_argument) _ h in
    let (u2, t2, h2) =
      bind-eq-ok
        (fail_if
          (is_negative req.subtotal
            || is_negative req.discount
            || is_negative req.tax
            || ltb_ℤ req.subtotal req.discount)
          invalid_argument)
        _ h1 in
    let (u3, t3, h3) =
      bind-eq-ok
        (fail_if (not (eqb_ℤ (add64 (sub64 req.subtotal req.discount) req.tax) req.total))
          invalid_argument)
        _ h2 in
    let (u4, t4, h4) = bind-eq-ok (check_lines req) _ h3 in
    let positive = fail_if-passes (leb_ℤ req.total (pos 0)) invalid_argument u1 t1 in
    let signs =
      fail_if-passes
        (is_negative req.subtotal
          || is_negative req.discount
          || is_negative req.tax
          || ltb_ℤ req.subtotal req.discount)
        invalid_argument u2 t2 in
    let sums =
      fail_if-passes (not (eqb_ℤ (add64 (sub64 req.subtotal req.discount) req.tax) req.total))
        invalid_argument u3 t3 in
    let guests =
      fail_if-passes (req.is_guest && (req.has_tenders || req.auto_tender)) invalid_argument tt
        h4 in
    let (lines, itemised) = check_lines-exact req req.lines u4 refl lines_small t4 in
    let exact : add64 (sub64 req.subtotal req.discount) req.tax
        ≡ req.subtotal -ℤ req.discount +ℤ req.tax =
      ap (λ x. add64 x req.tax) (sub64_exact req.subtotal req.discount (omega arith))
      ∙ add64_exact (req.subtotal -ℤ req.discount) req.tax
          (omega (arith, magnitude-sub req.subtotal req.discount)) in
    record {
      total = ground (arith, positive);
      subtotal = ground (arith, signs);
      discount = ground (arith, signs);
      tax = ground (arith, signs);
      discounted = ground (arith, signs);
      sum = sym exact ∙ (eqb_ℤ_iff _ req.total).0 (ground (arith, sums));
      lines = lines;
      itemised = itemised;
      guest = λ e. (ground (arith, e, guests), ground (arith, e, guests));
    }
