-- ===== src/Options/Printed.antt =====
-- Options of the scripts, printed as a command line and parsed again.
use gto_poker_daily_spots_ba.Prelude.{
  not, ◌||◌, ◌&&◌, Bool, true, false, ◌≡◌, refl, ◌∙◌, ap, sym, List, [], ◌∷◌, ◌++◌, ok, arith, Text,
  same_text, any,
}
use gto_poker_daily_spots_ba.Options.{
  OptionValue, flag, value, Options, is_dashed, is_empty_text, assign, put_option, proto, option,
  parse_from, parse_args,
}

-- A command line that gives the options, in their order.
abbrev pub print_args : Options → List Text
print_args [] = []
print_args ((k, flag) ∷ rest) = (45 ∷ 45 ∷ k) ∷ print_args rest
print_args ((k, value v) ∷ rest) = (45 ∷ 45 ∷ k) ∷ v ∷ print_args rest

abbrev pub is_named : Text → Options → Bool
is_named k options = any (λ (o : Text × OptionValue). same_text o.0 k) options

abbrev pub is_value : OptionValue → Bool
is_value flag = true
is_value (value v) = not (is_empty_text v) && not (is_dashed v)

-- Names that are not empty or `__proto__` and do not repeat, with values that are not empty and not dashed.
abbrev pub are_printable : Options → Bool
are_printable [] = true
are_printable ((k, v) ∷ rest) =
    (not (is_empty_text k) && not (same_text k proto))
    && not (is_named k rest)
    && is_value v
    && are_printable rest

put_option-new :
    (k : Text) (v : OptionValue) (options : Options)
    → is_named k options ≡ false
    → put_option k v options ≡ options ++ (k, v) ∷ []
unfolding put_option
put_option-new k v [] e = refl
put_option-new k v ((j, w) ∷ rest) e = ground (arith, put_option-new k v rest)

assign-new :
    (k : Text) (v : OptionValue) (options : Options)
    → same_text k proto ≡ false
    → is_named k options ≡ false
    → assign k v options ≡ options ++ (k, v) ∷ []
unfolding assign
assign-new k v options p e = rw (assign, p) (put_option-new k v options e)

same_text_comm : (a b : Text) → same_text a b ≡ same_text b a
same_text_comm [] [] = refl
same_text_comm [] (b ∷ bs) = refl
same_text_comm (a ∷ as') [] = refl
same_text_comm (a ∷ as') (b ∷ bs) = ground (arith, same_text_comm as' bs)

is_named-append :
    (j k : Text) (v : OptionValue) (done : Options)
    → is_named j (done ++ (k, v) ∷ []) ≡ is_named j done || same_text k j
is_named-append j k v [] = ground arith
is_named-append j k v ((i, w) ∷ done) = ground (arith, is_named-append j k v done)

fresh : Options → Options → Bool
fresh done [] = true
fresh done ((k, v) ∷ rest) = not (is_named k done) && fresh done rest

fresh-append :
    (done : Options) (k : Text) (v : OptionValue) (rest : Options)
    → fresh done rest ≡ true
    → is_named k rest ≡ false
    → fresh (done ++ (k, v) ∷ []) rest ≡ true
unfolding fresh
fresh-append done k v [] f n = refl
fresh-append done k v ((j, w) ∷ rest) f n =
    ground (arith, is_named-append j k v done, same_text_comm k j, fresh-append done k v rest)

append_assoc :
    (xs : Options) (o : Text × OptionValue) (ys : Options) → (xs ++ o ∷ []) ++ ys ≡ xs ++ o ∷ ys
append_assoc [] o ys = refl
append_assoc (x ∷ xs) o ys = ap (λ t. x ∷ t) (append_assoc xs o ys)

append_nil : (xs : Options) → xs ++ [] ≡ xs
append_nil [] = refl
append_nil (x ∷ xs) = ap (λ t. x ∷ t) (append_nil xs)

same_empty : (k : Text) → same_text k [] ≡ is_empty_text k
same_empty [] = refl
same_empty (c ∷ k) = refl

-- The two branches of the loop that store an option.
flag_step :
    (done : Options) (k : Text) (next : Text) (more : List Text)
    → is_empty_text k ≡ false
    → is_empty_text next || is_dashed next ≡ true
    → same_text k proto ≡ false
    → is_named k done ≡ false
    → parse_from done ((45 ∷ 45 ∷ k) ∷ next ∷ more)
      ≡ parse_from (done ++ (k, flag) ∷ []) (next ∷ more)
unfolding parse_from
flag_step done k next more e d p n = rw (same_empty k, e, d, assign-new k flag done p n) refl

value_step :
    (done : Options) (k v : Text) (more : List Text)
    → is_empty_text k ≡ false
    → is_empty_text v || is_dashed v ≡ false
    → same_text k proto ≡ false
    → is_named k done ≡ false
    → parse_from done ((45 ∷ 45 ∷ k) ∷ v ∷ more) ≡ parse_from (done ++ (k, value v) ∷ []) more
unfolding parse_from
value_step done k v more e d p n = rw (same_empty k, e, d, assign-new k (value v) done p n) refl

parse_from-print :
    (done options : Options)
    → are_printable options ≡ true
    → fresh done options ≡ true
    → parse_from done (print_args options) ≡ ok (done ++ options)
unfolding fresh parse_from
parse_from-print done [] p f = ap ok (sym (append_nil done))
parse_from-print done ((k, flag) ∷ []) p f =
    let e : is_empty_text k ≡ false = ground arith in
    rw (same_empty k, e) (ap ok (assign-new k flag done (ground arith) (ground arith)))
parse_from-print done ((k, flag) ∷ (j, flag) ∷ rest) p f =
    flag_step done k (45 ∷ 45 ∷ j) (print_args rest) (ground arith) refl (ground arith)
      (ground arith)
    ∙ parse_from-print (done ++ (k, flag) ∷ []) ((j, flag) ∷ rest) (ground arith)
        (fresh-append done k flag ((j, flag) ∷ rest) (ground arith) (ground arith))
    ∙ ap ok (append_assoc done (k, flag) ((j, flag) ∷ rest))
parse_from-print done ((k, flag) ∷ (j, value u) ∷ rest) p f =
    flag_step done k (45 ∷ 45 ∷ j) (u ∷ print_args rest) (ground arith) refl (ground arith)
      (ground arith)
    ∙ parse_from-print (done ++ (k, flag) ∷ []) ((j, value u) ∷ rest) (ground arith)
        (fresh-append done k flag ((j, value u) ∷ rest) (ground arith) (ground arith))
    ∙ ap ok (append_assoc done (k, flag) ((j, value u) ∷ rest))
parse_from-print done ((k, value v) ∷ rest) p f =
    value_step done k v (print_args rest) (ground arith) (ground arith) (ground arith)
      (ground arith)
    ∙ parse_from-print (done ++ (k, value v) ∷ []) rest (ground arith)
        (fresh-append done k (value v) rest (ground arith) (ground arith))
    ∙ ap ok (append_assoc done (k, value v) rest)

fresh_nil : (options : Options) → fresh [] options ≡ true
unfolding fresh
fresh_nil [] = refl
fresh_nil ((k, v) ∷ rest) = fresh_nil rest

-- A command line that gives options is parsed, and a look-up then finds every name as it does in those
-- options, if their names are not empty or `__proto__` and do not repeat and no value is empty or starts
-- with two dashes.
pub parse_args-print_args :
    (options : Options)
    → are_printable options ≡ true
    → (parsed : Options) × (parse_args (print_args options) ≡ ok parsed)
      × ((k : Text) → option k parsed ≡ option k options)
unfolding parse_args
parse_args-print_args options p =
    (options, parse_from-print [] options p (fresh_nil options), λ k. refl)
