-- ===== src/Arch/Flags.antt =====
-- Checking a claim on all values of a field by evaluation, and equality of architectures.
use farcri_rs.Prelude.{Bool, true, false, ◌&&◌, not, ◌≡◌, arith}
use farcri_rs.Arch.{Extensions}

unfoldable pub all_bool : (Bool → Bool) → Bool
all_bool p = p false && p true

pub all_bool_sound : (p : Bool → Bool) (b : Bool) → all_bool p ≡ true → p b ≡ true
unfolding all_bool
all_bool_sound p true h = ground arith
all_bool_sound p false h = ground arith

unfoldable pub all_extensions : (Extensions → Bool) → Bool
unfolding all_bool
all_extensions p = all_bool λ e. all_bool λ m. all_bool λ a.
    all_bool
      λ c. all_bool λ f. all_bool λ d. p (record { e = e; m = m; a = a; c = c; f = f; d = d })

pub all_extensions_sound :
    (p : Extensions → Bool) (x : Extensions) → all_extensions p ≡ true → p x ≡ true
unfolding all_extensions
all_extensions_sound p x h =
    let at : Bool → Bool → Bool → Bool → Bool → Bool → Bool =
      λ e m a c f d. p (record { e = e; m = m; a = a; c = c; f = f; d = d }) in
    all_bool_sound (at x.e x.m x.a x.c x.f) x.d (
      all_bool_sound (λ f. all_bool (at x.e x.m x.a x.c f)) x.f
        (all_bool_sound (λ c. all_bool λ f. all_bool (at x.e x.m x.a c f)) x.c
          (all_bool_sound (λ a. all_bool λ c. all_bool λ f. all_bool (at x.e x.m a c f)) x.a
            (all_bool_sound
              (λ m. all_bool λ a. all_bool λ c. all_bool λ f. all_bool (at x.e m a c f)) x.m
              (all_bool_sound
                (λ e.
                  all_bool λ m. all_bool λ a. all_bool λ c. all_bool λ f. all_bool (at e m a c f))
                x.e h)))))

pub eqb : Bool → Bool → Bool
eqb true b = b
eqb false b = not b

-- Equality of the fields.
unfoldable pub same_extensions : Extensions → Extensions → Bool
unfolding eqb
same_extensions x y =
    eqb x.e y.e && eqb x.m y.m && eqb x.a y.a && eqb x.c y.c && eqb x.f y.f && eqb x.d y.d

eqb_sound : (a b : Bool) → eqb a b ≡ true → a ≡ b
unfolding eqb
eqb_sound true b h = ground arith
eqb_sound false b h = ground arith

pub same_extensions_sound : (x y : Extensions) → same_extensions x y ≡ true → x ≡ y
unfolding same_extensions
same_extensions_sound x y h = ground arith
