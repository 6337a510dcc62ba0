-- ===== src/Contract/Balanced.antt =====
-- What `_function_body` gives of a function whose braces are closed.
use Prim.Native.Char.{Char, code}
use Prim.Native.String.append
use bootmux.Base.{
  ◌≡◌, refl, ℕ, zero, suc, true, false, not, Option, none, some, String, ◌<>◌, codes, all, eq_ℕ,
  arith, Bool-cases, inl, inr, if◌then◌else◌,
}
use bootmux.Base.Search.{search}
use bootmux.Contract.{braced, from_brace, cons_text, or_none, function_body}

-- The depth of braces behind a text, from the depth before it; none where a brace closes nothing.
unfoldable pub depth_after : ℕ → String → Option ℕ
depth_after depth String.[] = some depth
depth_after depth (String.◌∷◌ c s) =
    if eq_ℕ (code c) 123
    then depth_after (suc depth) s
    else if eq_ℕ (code c) 125
    then (elim depth [ zero ↦ none | suc d ↦ depth_after d s ])
    else depth_after depth s

abbrev prefixed : String → Option String → Option String
prefixed s none = none
prefixed s (some t) = some (s <> t)

cons_prefixed :
    (c : Char) (s : String) (o : Option String)
    → cons_text (String.◌∷◌ c "") (prefixed s o) ≡ prefixed (String.◌∷◌ c s) o
cons_prefixed c s none = refl
cons_prefixed c s (some t) =
    rw (append.cons c "" (s <> t), append.nil (s <> t), append.cons c s t) refl

prefixed_nil : (o : Option String) → o ≡ prefixed "" o
prefixed_nil none = refl
prefixed_nil (some t) = rw (append.nil t) refl

the_depth : {a b : ℕ} → some a ≡ some b → a ≡ b
the_depth h = cc

not_zero : (d : ℕ) → eq_ℕ (suc d) 0 ≡ false
not_zero d = ground arith

-- The round for a brace that closes.
closing :
    (depth to : ℕ) (c : Char) (s t : String)
    → eq_ℕ (code c) 123 ≡ false
    → eq_ℕ (code c) 125 ≡ true
    → depth_after depth (String.◌∷◌ c s) ≡ some to
    → ((d : ℕ)
        → depth_after d s ≡ some to
        → braced (suc d) (s <> t) ≡ prefixed s (braced (suc to) t))
    → braced (suc depth) (String.◌∷◌ c (s <> t))
      ≡ cons_text (String.◌∷◌ c "") (prefixed s (braced (suc to) t))
unfolding braced depth_after
closing zero to c s t no_open close h rest = cc (rw (depth_after, no_open, close) at h)
closing (suc d) to c s t no_open close h rest =
    rw (braced, no_open, close, rest d (rw (depth_after, no_open, close) at h), not_zero d) refl

-- Within an open brace, a text that closes what it opens is passed over.
braced-append :
    (depth to : ℕ) (s t : String)
    → depth_after depth s ≡ some to
    → braced (suc depth) (s <> t) ≡ prefixed s (braced (suc to) t)
unfolding braced depth_after
braced-append depth to String.[] t h =
    rw (append.nil t, the_depth h) (prefixed_nil (braced (suc to) t))
braced-append depth to (String.◌∷◌ c s) t h =
    rw (append.cons c s t, ← cons_prefixed c s (braced (suc to) t))
      (elim (Bool-cases (eq_ℕ (code c) 123)) [
        | inl opens ↦
            rw (braced, opens, braced-append (suc depth) to s t (rw (depth_after, opens) at h)) refl
        | inr no_open ↦ elim (Bool-cases (eq_ℕ (code c) 125)) [
          | inl close ↦ closing depth to c s t no_open close h λ d k. braced-append d to s t k
          | inr plain ↦
              rw
                (
                  braced,
                  no_open,
                  plain,
                  braced-append depth to s t (rw (depth_after, no_open, plain) at h),
                )
                refl
        ]
      ])

from_brace-gap :
    (gap rest : String)
    → all (λ c. not (eq_ℕ c 123)) (codes gap) ≡ true
    → from_brace (gap <> String.◌∷◌ "{" rest) ≡ braced 0 (String.◌∷◌ "{" rest)
unfolding from_brace
from_brace-gap String.[] rest h = rw (append.nil (String.◌∷◌ "{" rest)) refl
from_brace-gap (String.◌∷◌ c gap) rest h =
    let other : eq_ℕ (code c) 123 ≡ false = ground arith in
    rw (append.cons c gap (String.◌∷◌ "{" rest), from_brace, other)
      (from_brace-gap gap rest (ground arith))

whole :
    (body rest : String)
    → depth_after 0 body ≡ some 0
    → or_none (cons_text "{" (braced 1 (body <> String.◌∷◌ "}" rest)))
      ≡ String.◌∷◌ "{" (body <> "}")
unfolding braced
whole body rest closed =
    rw
      (
        braced-append 0 0 body (String.◌∷◌ "}" rest) closed,
        append.cons "{" "" (body <> "}"),
        append.nil (body <> "}"),
      )
      refl

-- In a source whose first match of the signature is followed by anything without an opening brace and then
-- by a body in which each brace is closed, _function_body gives that body with its braces, whatever follows.
pub function_body-balanced :
    (signature : String → Option String) (source gap body rest : String)
    → search signature source ≡ some (gap <> String.◌∷◌ "{" (body <> String.◌∷◌ "}" rest))
    → all (λ c. not (eq_ℕ c 123)) (codes gap) ≡ true
    → depth_after 0 body ≡ some 0
    → function_body signature source ≡ String.◌∷◌ "{" (body <> "}")
unfolding function_body braced
function_body-balanced signature source gap body rest found plain closed =
    rw (function_body, found, from_brace-gap gap (body <> String.◌∷◌ "}" rest) plain)
      (whole body rest closed)
