-- ===== src/Integration/ForwardCert/Files.antt =====
-- integration/cmd/gen-forward-cert/main.go: what is written, and under which permissions.
use hackathon.Common.{ℕ, ◌≡◌, ◌∙◌, refl, sym, ap, subst, Bool, true, false, Option, none, some}
use hackathon.Text.{Text, codes}
use hackathon.Integration.ForwardCert.{
  Block, Os, Written, closing, after_encode, after_chmod, after_open, after_mkdir, write_pem,
  Authority, Ended, and_then, key_perm, cert_perm, write_all, template, after_certificate,
  after_serial, after_key, run,
}

-- A Chmod that succeeds sets the permission of the file.
pub record Chmods (os : Os) (perm_of : os.File → os.World → ℕ) : Type 0 where
  pub chmod_law :
      (f : os.File) (perm : ℕ) (w : os.World)
      → (os.chmod f perm w).0 ≡ true
      → perm_of f (os.chmod f perm w).1 ≡ perm

module _ (os : Os) {perm_of : os.File → os.World → ℕ} (l : Chmods os perm_of) where
  open os use {World, File, mkdir_all, open_file, chmod, encode, close}
  open l use {chmod_law}

  -- The block went into a file that had the permission at that moment; then the file was closed.
  abbrev pub Encoded : Text → Block → ℕ → World → Type 0
  Encoded path block perm w' =
      (f : File) × (w0 : World) × (w1 : World) × (w2 : World) × (open_file path perm w0
        ≡ (some f, w1))
      × (perm_of f w2 ≡ perm)
      × ((encode f block w2).0 ≡ true)
      × (w' ≡ close f (encode f block w2).1)

  abbrev Wrote : Text → Block → ℕ → Written os → Type 0
  Wrote path block perm (e, w') = e ≡ none → Encoded path block perm w'

  encoded_lem :
      (path : Text) (block : Block) (perm : ℕ) (w0 w1 w2 : World) (f : File) (o : Bool × World)
      → open_file path perm w0 ≡ (some f, w1)
      → perm_of f w2 ≡ perm
      → encode f block w2 ≡ o
      → Wrote path block perm (closing os f (after_encode os o))
  encoded_lem path block perm w0 w1 w2 f (true, w3) opened p e = λ done. (
    f,
    w0,
    w1,
    w2,
    opened,
    p,
    ap (λ (x : Bool × World). x.0) e,
    ap (λ (x : Bool × World). close f x.1) (sym e),
  )
  encoded_lem path block perm w0 w1 w2 f (false, w3) opened p e = λ done. cc done

  chmod_lem :
      (path : Text) (block : Block) (perm : ℕ) (w0 w1 : World) (f : File) (o : Bool × World)
      → open_file path perm w0 ≡ (some f, w1)
      → chmod f perm w1 ≡ o
      → Wrote path block perm (closing os f (after_chmod os f block o))
  chmod_lem path block perm w0 w1 f (true, w2) opened e =
      encoded_lem path block perm w0 w1 w2 f (encode f block w2) opened
        (ap (λ (x : Bool × World). perm_of f x.1) (sym e)
          ∙ chmod_law f perm w1 (ap (λ (x : Bool × World). x.0) e))
        refl
  chmod_lem path block perm w0 w1 f (false, w2) opened e = λ done. cc done

  open_lem :
      (path : Text) (block : Block) (perm : ℕ) (w0 : World) (o : Option File × World)
      → open_file path perm w0 ≡ o
      → Wrote path block perm (after_open os block perm o)
  open_lem path block perm w0 (none, w1) e = λ done. cc done
  open_lem path block perm w0 (some f, w1) e =
      chmod_lem path block perm w0 w1 f (chmod f perm w1) e refl

  mkdir_lem :
      (path : Text) (block : Block) (perm : ℕ) (o : Bool × World)
      → Wrote path block perm (after_mkdir os path block perm o)
  mkdir_lem path block perm (true, w) = open_lem path block perm w (open_file path perm w) refl
  mkdir_lem path block perm (false, w) = λ done. cc done

  pub write_pem-Encoded :
      (path typ der : Text) (perm : ℕ) (w : World)
      → (write_pem os path typ der perm w).0 ≡ none
      → Encoded path (record { typ = typ; bytes = der }) perm (write_pem os path typ der perm w).1
  unfolding write_pem
  write_pem-Encoded path typ der perm w = mkdir_lem path _ perm (mkdir_all (os.dir path) _ w)

module _ (a : Authority) {perm_of : a.os.File → a.os.World → ℕ} (l : Chmods a.os perm_of) where
  open a use {os, Key, generate_key, serial, now, create_certificate, marshal_key}

  -- The certificate of the key under this serial number, made at `v2`.
  abbrev pub Certified : Key → ℕ → os.World → Text → Type 0
  Certified key n v2 der =
      let (before, v3) = now v2 in
      let (after, v4) = now v3 in
      (create_certificate (template a n before after) key v4).0 ≡ some der

  -- The key, the serial number, the certificate and the three files, in the order in which they are
  -- made.
  abbrev pub Issued : os.World → os.World → Type 0
  Issued w w' =
      (key : Key) × (n : ℕ) × (der : Text) × (v1 : os.World) × (v2 : os.World) × (v3 : os.World)
      × (v4 : os.World) × (generate_key w ≡ (some key, v1))
      × (serial v1 ≡ (some n, v2))
      × Certified key n v2 der
      × Encoded os l (codes "testdata/forward-target.crt")
          (record { typ = codes "CERTIFICATE"; bytes = der }) cert_perm v3
      × Encoded os l (codes "testdata/ca-certificates.crt")
          (record { typ = codes "CERTIFICATE"; bytes = der }) cert_perm v4
      × Encoded os l (codes "testdata/forward-target.key")
          (record { typ = codes "RSA PRIVATE KEY"; bytes = marshal_key key }) key_perm w'

  abbrev Fine : os.World → Ended a → Type 0
  Fine w (e, w') = e ≡ none → Issued w w'

  and_then-none :
      (o : Written os) (go_on : os.World → Ended a)
      → (and_then a o go_on).0 ≡ none
      → (o.0 ≡ none) × (and_then a o go_on ≡ go_on o.1)
  and_then-none (none, w) go_on h = (refl, refl)
  and_then-none (some e, w) go_on h = cc

  last_lem :
      (o : Written os)
      → (and_then a o (λ w. (none, w))).0 ≡ none
      → (o.0 ≡ none) × ((and_then a o (λ w. (none, w))).1 ≡ o.1)
  last_lem (none, w) h = (refl, refl)
  last_lem (some e, w) h = cc

  write_all_lem :
      (w : os.World) (key : Key) (n : ℕ) (der : Text) (v1 v2 w1 : os.World)
      → generate_key w ≡ (some key, v1)
      → serial v1 ≡ (some n, v2)
      → Certified key n v2 der
      → Fine w (write_all a key der w1)
  write_all_lem w key n der v1 v2 w1 made counted issued h =
      let typ = codes "CERTIFICATE" in
      let first = write_pem os (codes "testdata/forward-target.crt") typ der cert_perm w1 in
      let second = write_pem os (codes "testdata/ca-certificates.crt") typ der cert_perm first.1 in
      let third =
        write_pem os (codes "testdata/forward-target.key") (codes "RSA PRIVATE KEY")
          (marshal_key key) key_perm second.1 in
      let (ok1, go1) = and_then-none first _ h in
      let rest1 = ap (λ (x : Ended a). x.0) (sym go1) ∙ h in
      let (ok2, go2) = and_then-none second _ rest1 in
      let rest2 = ap (λ (x : Ended a). x.0) (sym go2) ∙ rest1 in
      let (ok3, end) = last_lem third rest2 in
      let final : (write_all a key der w1).1 ≡ third.1 =
        ap (λ (x : Ended a). x.1) go1 ∙ ap (λ (x : Ended a). x.1) go2 ∙ end in
      (
        key,
        n,
        der,
        v1,
        v2,
        first.1,
        second.1,
        made,
        counted,
        issued,
        write_pem-Encoded os l _ _ _ _ w1 ok1,
        write_pem-Encoded os l _ _ _ _ first.1 ok2,
        subst
            (Encoded os l (codes "testdata/forward-target.key")
              (record { typ = codes "RSA PRIVATE KEY"; bytes = marshal_key key }) key_perm)
            (sym final) (write_pem-Encoded os l _ _ _ _ second.1 ok3),
      )

  certificate_lem :
      (w : os.World) (key : Key) (n : ℕ) (v1 v2 : os.World) (o : Option Text × os.World)
      → generate_key w ≡ (some key, v1)
      → serial v1 ≡ (some n, v2)
      → ((der : Text) → o.0 ≡ some der → Certified key n v2 der)
      → Fine w (after_certificate a key o)
  certificate_lem w key n v1 v2 (none, w1) made counted issued = λ h. cc h
  certificate_lem w key n v1 v2 (some der, w1) made counted issued =
      write_all_lem w key n der v1 v2 w1 made counted (issued der refl)

  serial_lem :
      (w : os.World) (key : Key) (v1 : os.World) (o : Option ℕ × os.World)
      → generate_key w ≡ (some key, v1)
      → serial v1 ≡ o
      → Fine w (after_serial a key o)
  serial_lem w key v1 (none, v2) made counted = λ h. cc h
  serial_lem w key v1 (some n, v2) made counted =
      let (before, v3) = now v2 in
      let (after, v4) = now v3 in
      certificate_lem w key n v1 v2 (create_certificate (template a n before after) key v4) made
        counted (λ der e. e)

  key_lem : (w : os.World) (o : Option Key × os.World) → generate_key w ≡ o → Fine w (after_key a o)
  key_lem w (none, v1) e = λ h. cc h
  key_lem w (some key, v1) e = serial_lem w key v1 (serial v1) e refl

  -- If the tool succeeds, it made one key, a serial number and the certificate of that key under that
  -- number, wrote the certificate to both of its files and the key to its own, and the file of the key
  -- had the permission 600 when the key went into it, also if it was there before with another one.
  pub run-Issued : (w : os.World) → (run a w).0 ≡ none → Issued w (run a w).1
  unfolding run
  run-Issued w = key_lem w (generate_key w) refl
