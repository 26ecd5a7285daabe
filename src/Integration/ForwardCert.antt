-- ===== src/Integration/ForwardCert.antt =====
-- integration/cmd/gen-forward-cert/main.go: the files of a self-signed certificate. The key, the
-- certificate and the file system are parameters.
pub mod Files
use hackathon.Common.{ℕ, Bool, true, false, Option, none, some, List, [], ◌∷◌, if◌then◌else◌}
use hackathon.Text.{Text, codes}

-- pem.Block
pub record Block : Type 0 where
  pub typ : Text
  pub bytes : Text

-- What writePEM calls; true and some are success. `open_file` creates the file with the permission if
-- it is not there, and empties it if it is.
pub record Os : Type 1 where
  pub World : Type 0
  pub File : Type 0
  pub dir : Text → Text
  pub mkdir_all : Text → ℕ → World → Bool × World
  pub open_file : Text → ℕ → World → Option File × World
  pub chmod : File → ℕ → World → Bool × World
  pub encode : File → Block → World → Bool × World
  pub close : File → World → World

pub data WriteError : Type 0 where
  mkdir_failed open_failed chmod_failed encode_failed : WriteError

module _ (os : Os) where
  open os use {World, File, dir, mkdir_all, open_file, chmod, encode, close}

  abbrev pub Written : Type 0
  Written = Option WriteError × World

  -- The deferred Close.
  abbrev pub closing : File → Written → Written
  closing f (e, w) = (e, close f w)

  abbrev pub after_encode : Bool × World → Written
  after_encode (true, w) = (none, w)
  after_encode (false, w) = (some encode_failed, w)

  abbrev pub after_chmod : File → Block → Bool × World → Written
  after_chmod f block (true, w) = after_encode (encode f block w)
  after_chmod f block (false, w) = (some chmod_failed, w)

  abbrev pub after_open : Block → ℕ → Option File × World → Written
  after_open block perm (none, w) = (some open_failed, w)
  after_open block perm (some f, w) = closing f (after_chmod f block (chmod f perm w))

  abbrev pub after_mkdir : Text → Block → ℕ → Bool × World → Written
  after_mkdir path block perm (true, w) = after_open block perm (open_file path perm w)
  after_mkdir path block perm (false, w) = (some mkdir_failed, w)

  -- 0o755
  abbrev pub dir_perm : ℕ
  dir_perm = 493

  unfoldable pub write_pem : Text → Text → Text → ℕ → World → Written
  write_pem path typ der perm w =
      after_mkdir path (record { typ = typ; bytes = der }) perm (mkdir_all (dir path) dir_perm w)

pub data KeyUsage : Type 0 where
  key_encipherment digital_signature cert_sign : KeyUsage

pub data ExtKeyUsage : Type 0 where
  server_auth : ExtKeyUsage

-- x509.Certificate, the fields that are set
pub record Template (Time Ip : Type 0) : Type 0 where
  pub serial_number : ℕ
  pub common_name : Text
  pub not_before : Time
  pub not_after : Time
  pub dns_names : List Text
  pub ip_addresses : List Ip
  pub key_usage : List KeyUsage
  pub ext_key_usage : List ExtKeyUsage
  pub basic_constraints_valid : Bool
  pub is_ca : Bool

-- What run needs besides: the random key and serial number, the clock, and crypto/x509, here for a
-- certificate that is signed by its own key.
pub record Authority : Type 1 where
  pub os : Os
  pub Key : Type 0
  pub Time : Type 0
  pub Ip : Type 0
  pub generate_key : os.World → Option Key × os.World
  pub serial : os.World → Option ℕ × os.World
  pub now : os.World → Time × os.World
  pub hour_before : Time → Time
  pub year_after : Time → Time
  pub parse_ip : Text → Ip
  pub create_certificate : Template Time Ip → Key → os.World → Option Text × os.World
  pub marshal_key : Key → Text

pub data RunError : Type 0 where
  key_failed serial_failed certificate_failed : RunError
  write_failed : WriteError → RunError

-- 0o600 and 0o644
abbrev pub key_perm : ℕ
key_perm = 384

abbrev pub cert_perm : ℕ
cert_perm = 420

module _ (a : Authority) where
  open a use {
    os, Key, Time, Ip, generate_key, serial, now, hour_before, year_after, parse_ip,
    create_certificate, marshal_key,
  }

  abbrev pub Ended : Type 0
  Ended = Option RunError × os.World

  abbrev pub and_then : Option WriteError × os.World → (os.World → Ended) → Ended
  and_then (none, w) go_on = go_on w
  and_then (some e, w) go_on = (some (write_failed e), w)

  abbrev pub write_all : Key → Text → os.World → Ended
  write_all key der w =
      and_then
        (write_pem os (codes "testdata/forward-target.crt") (codes "CERTIFICATE") der cert_perm w)
        λ w1.
          and_then
            (write_pem os (codes "testdata/ca-certificates.crt") (codes "CERTIFICATE") der cert_perm
              w1)
            λ w2.
              and_then
                (write_pem os (codes "testdata/forward-target.key") (codes "RSA PRIVATE KEY")
                  (marshal_key key) key_perm w2)
                λ w3. (none, w3)

  abbrev pub after_certificate : Key → Option Text × os.World → Ended
  after_certificate key (none, w) = (some certificate_failed, w)
  after_certificate key (some der, w) = write_all key der w

  abbrev pub template : ℕ → Time → Time → Template Time Ip
  template n before after = record {
    serial_number = n;
    common_name = codes "forward-target";
    not_before = hour_before before;
    not_after = year_after after;
    dns_names = codes "ap-northeast-3.localhost" ∷ codes "forward-target" ∷ [];
    ip_addresses = parse_ip (codes "127.0.0.1") ∷ [];
    key_usage = key_encipherment ∷ digital_signature ∷ cert_sign ∷ [];
    ext_key_usage = server_auth ∷ [];
    basic_constraints_valid = true;
    is_ca = true;
  }

  abbrev pub certify : Key → ℕ → os.World → Ended
  certify key n w =
      let (before, w1) = now w in
      let (after, w2) = now w1 in
      after_certificate key (create_certificate (template n before after) key w2)

  abbrev pub after_serial : Key → Option ℕ × os.World → Ended
  after_serial key (none, w) = (some serial_failed, w)
  after_serial key (some n, w) = certify key n w

  abbrev pub after_key : Option Key × os.World → Ended
  after_key (none, w) = (some key_failed, w)
  after_key (some key, w) = after_serial key (serial w)

  unfoldable pub run : os.World → Ended
  run w = after_key (generate_key w)
