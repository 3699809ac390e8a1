-- ===== src/Programs/Mcget/Main.antt =====
-- Which URIs mcget asks for, and its tries to receive.
use mcoap.Base.{
  ℕ, ◌≡◌, ◌⊎◌, inl, inr, refl, ap, ◌∙◌, false, none, some, Option, List, [], ◌∷◌, Bool-cases, arith,
  le→ltb, length, ltb, to_u16, ◌==◌, if◌then◌else◌,
}
use mcoap.Base.Int.{pos}
use mcoap.Base.Run
use mcoap.Base.Run.{Run, ok}
use mcoap.CString.{Text, is_equal, atoi, int_to_u32}
use mcoap.Uri.{default_port}
use mcoap.Endpoint.{Endpoint}
use mcoap.Endpoint.Send.{Net}
use mcoap.Endpoint.Receive.{Reading}
use mcoap.Endpoint.Request.{Outside}
use mcoap.Programs.Args
use mcoap.Programs.Args.{port_flag}
use mcoap.Programs.Args.Scan.{Flagged, IsTrailing, IsAbsent, getport-cases}
use mcoap.Programs.Args.Pack.{others, others_all, packargs-others}
use mcoap.Programs.Mcget.{Visit, Shown, get_uris, main}

-- The requests for these URIs, or nothing where there are none.
abbrev pub asks :
    Outside
    → Net
    → Reading
    → ℕ
    → (ℕ → Visit)
    → ℕ
    → List Text
    → Run (Option (List (ℕ × Shown × Endpoint)))
asks o net r fuel visits port [] = ok none
asks o net r fuel visits port (uri ∷ uris) =
    Run.◌>>=◌ (get_uris o net r fuel visits port 0 (uri ∷ uris)) (λ shown. ok (some shown))

module _ (o : Outside) (net : Net) (r : Reading) (fuel : ℕ) (visits : ℕ → Visit) (name : Text)
    (args : List Text) where
  fails :
      (port : ℕ)
      → Args.getport o.wild port_flag (name ∷ args) default_port ≡ some (pos 1, port)
      → main o net r fuel visits (name ∷ args) ≡ ok none
  unfolding main
  fails port e = let (argv', run, packed, whole) = packargs-others name args in rw (e, run) refl

  asks_lem :
      (port : ℕ) (uris : List Text)
      → (if ltb (length uris) 1
          then ok none
          else Run.◌>>=◌ (get_uris o net r fuel visits port 0 uris) (λ shown. ok (some shown)))
        ≡ asks o net r fuel visits port uris
  asks_lem port [] = refl
  asks_lem port (uri ∷ uris) = rw (le→ltb (length (uri ∷ uris)) 1 (omega arith)) refl

  goes :
      (port : ℕ)
      → Args.getport o.wild port_flag (name ∷ args) default_port ≡ some (pos 0, port)
      → main o net r fuel visits (name ∷ args) ≡ asks o net r fuel visits port (others args)
  unfolding main
  goes port e =
      let (argv', run, packed, whole) = packargs-others name args in
      rw (e, run, packed) (asks_lem port (others args))

  -- mcget asks for the URIs among its arguments, those that are neither a `-p` nor stand behind one, in
  -- their order, from the port that stands behind the first `-p`. It asks for nothing and prints the
  -- usage where that port is 0, where the last argument is the only `-p`, and where no URI is left.
  -- Without a `-p` the port is 5683 and all arguments are URIs. The program's name is not `-p`.
  pub main-asks :
      is_equal port_flag name ≡ false
      → ((f : Flagged port_flag args) × (main o net r fuel visits (name ∷ args) ≡ (
            if to_u16 (int_to_u32 (atoi o.wild f.value)) == 0
            then ok none
            else asks o net r fuel visits
                (to_u16 (int_to_u32 (atoi o.wild f.value)))
                (others args))))
        ⊎ (IsTrailing port_flag args × (main o net r fuel visits (name ∷ args) ≡ ok none))
        ⊎ (IsAbsent port_flag args
            × (main o net r fuel visits (name ∷ args) ≡ asks o net r fuel visits default_port args))
  main-asks other = elim (getport-cases o.wild port_flag name args default_port other) [
    | inl (f, e) ↦
        let port : ℕ = to_u16 (int_to_u32 (atoi o.wild f.value)) in
        elim (Bool-cases (port == 0)) [
          | inl null ↦ inl (f, rw null (fails port (e ∙ rw null refl)))
          | inr there ↦ inl (f, rw there (goes port (e ∙ rw there refl)))
        ]
    | inr (inl (t, e)) ↦ inr (inl (t, fails default_port e))
    | inr (inr (absent, e)) ↦ inr (
        inr (
          absent,
          goes default_port e ∙ ap (asks o net r fuel visits default_port) (others_all args absent),
        ))
  ]
