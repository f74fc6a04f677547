-- ===== src/Tls/Generate/Release.antt =====
-- The objects of OpenSSL in `tls_generate_certs` of src/tls.c: what is written, and what is given back.
use adb_termux_bridge.Base.{
  ℕ, zero, suc, ◌+◌, ◌<◌, ◌≡◌, refl, ◌∙◌, inl, inr, Bool, true, false, Option, none, some, List,
  ◌∷◌, ◌++◌, arith, if◌then◌else◌, Bool-cases, Bytes, codes,
}
use adb_termux_bridge.Tls.{
  Certificate, Openssl, System, File, World, Object, pure, ◌>>=◌, ◌>>◌, print_out, print_err,
  is_live, without, free, touch, find_file, put_file, Freed, free_lem, touch_lem,
}
use adb_termux_bridge.Tls.Files.{write_pem_key, write_pem_cert, write_file, after_pem, chmod}
use adb_termux_bridge.Tls.Generate.{report, write_all, finish}

-- The objects are those of `w`, and nothing was misused.
record Kept (w v : World) : Type 0 where
  live : v.live ≡ w.live
  faults : v.faults ≡ w.faults

Kept-of : (w v : World) → v.live ≡ w.live → v.faults ≡ w.faults → Kept w v
Kept-of w v l f = record { live = l; faults = f }

-- The numbers from `n` on of objects made one after the other, the last one first.
abbrev pub from : ℕ → ℕ → List ℕ → List ℕ
from n zero live = live
from n (suc k) live = (n + k) ∷ from n k live

abbrev six_from : ℕ → List ℕ → List ℕ
six_from n live = from n 6 live

from-is_live : (n k m : ℕ) (live : List ℕ) → k < m → is_live (n + k) (from n m live) ≡ true
unfolding is_live
from-is_live n k zero live h = elim h [ ]
from-is_live n k (suc m) live h = ground (arith, from-is_live n k m live)

from-live : (n k : ℕ) (live : List ℕ) → is_live n (from n (suc k) live) ≡ true
unfolding is_live
from-live n zero live = ground arith
from-live n (suc k) live = ground (arith, from-live n k live)

from-step : (n k : ℕ) (live : List ℕ) → without n (from n (suc k) live) ≡ from (n + 1) k live
unfolding without
from-step n zero live = ground arith
from-step n (suc k) live = ground (arith, from-step n k live)

free_oldest :
    (n m k : ℕ) (live : List ℕ) (id : ℕ) (w : World)
    → m ≡ n + 1
    → id ≡ n
    → w.live ≡ from n (suc k) live
    → Freed id w (from m k live)
free_oldest n m k live id w step e l =
    rw (e, step) (free_lem n _ _ w l (from-live n k live) (from-step n k live))

pub held :
    (n k m id : ℕ) (live : List ℕ) (w : World)
    → id ≡ n + k
    → k < m
    → w.live ≡ from n m live
    → is_live id w.live ≡ true
held n k m id live w e h l = rw (e, l) (from-is_live n k m live h)

announce_Kept :
    (ok : Bool) (text : Bytes) (w : World) → Kept w ((if ok then print_out text else pure tt) w).1
unfolding print_out
announce_Kept true text w = Kept-of _ _ refl refl
announce_Kept false text w = Kept-of _ _ refl refl

module _ (ssl : Openssl) (sys : System) where
  open ssl use {Key, Public}

  abbrev CertObject : Type 0
  CertObject = Object (Certificate Public)

  Kept-trans : (u v w : World) → Kept u v → Kept v w → Kept u w
  Kept-trans u v w h k = record { live = k.live ∙ h.live; faults = k.faults ∙ h.faults }

  report-Kept : (path : Bytes) (b : Bool) (w : World) → Kept w (report ssl sys path b w).1
  unfolding report print_err
  report-Kept path true w = Kept-of _ _ refl refl
  report-Kept path false w = Kept-of _ _ refl refl

  chmod-Kept : (path : Bytes) (mode : ℕ) (w : World) → Kept w (chmod path mode w).1
  unfolding chmod
  chmod-Kept path mode w = go (find_file path w.disk)
    where
      go :
          (o : Option File)
          → Kept w (elim o as (λ _. World) [
            | none ↦ w
            | some f ↦ record w { disk = put_file path (record f { mode = mode }) w.disk }
          ])
      go none = Kept-of _ _ refl refl
      go (some f) = Kept-of _ _ refl refl

  write_file-Kept : (path text : Bytes) (w : World) → Kept w (write_file sys path text w).1
  unfolding write_file
  write_file-Kept path text w = elim (Bool-cases (sys.can_write w.calls path)) [
    | inl can ↦ rw can (Kept-of _ _ refl refl)
    | inr cannot ↦ rw cannot (Kept-of _ _ refl refl)
  ]

  after_pem-Kept :
      (path : Bytes) (mode : ℕ) (o : Option Bool) (w : World)
      → Kept w (after_pem ssl sys path mode o w).1
  unfolding after_pem print_err
  after_pem-Kept path mode none w = Kept-of _ _ refl refl
  after_pem-Kept path mode (some true) w = chmod-Kept path mode w
  after_pem-Kept path mode (some false) w =
      let u = record w { err = w.err ++ sys.error_text } in
      Kept-trans w u (chmod path mode u).1 (Kept-of _ _ refl refl) (chmod-Kept path mode u)

  pem-Kept :
      (path text : Bytes) (mode id : ℕ) (w : World)
      → is_live id w.live ≡ true
      → Kept w
          ((touch id
              >> write_file sys path text
              >>= after_pem ssl sys path mode
              >>= report ssl sys path)
            w).1
  pem-Kept path text mode id w h =
      let u = (write_file sys path text w).1 in
      let o = (write_file sys path text w).0 in
      let v = (after_pem ssl sys path mode o u).1 in
      rw (touch_lem id w h) (
        Kept-trans w v _
          (Kept-trans w u v (write_file-Kept path text w) (after_pem-Kept path mode o u))
          (report-Kept path _ v))

  write_pem_key-Kept :
      (path : Bytes) (k : Object Key) (w : World)
      → is_live k.id w.live ≡ true
      → Kept w ((write_pem_key ssl sys path k >>= report ssl sys path) w).1
  unfolding write_pem_key
  write_pem_key-Kept path k w h = pem-Kept path (ssl.pem_of_key k.value) 384 k.id w h

  write_pem_cert-Kept :
      (path : Bytes) (k : CertObject) (w : World)
      → is_live k.id w.live ≡ true
      → Kept w ((write_pem_cert ssl sys path k >>= report ssl sys path) w).1
  unfolding write_pem_cert
  write_pem_cert-Kept path k w h = pem-Kept path (ssl.pem_of_cert k.value) 420 k.id w h

  -- One file after another, with the six objects live.
  key_step :
      (n k : ℕ) (live : List ℕ) (file : Bytes) (x : Object Key) (u w : World)
      → x.id ≡ n + k
      → k < 6
      → u.live ≡ six_from n live
      → Kept u w
      → Kept u ((write_pem_key ssl sys file x >>= report ssl sys file) w).1
  key_step n k live file x u w e h l kept =
      Kept-trans u w _ kept
        (write_pem_key-Kept file x w (held n k 6 x.id live w e h (kept.live ∙ l)))

  cert_step :
      (n k : ℕ) (live : List ℕ) (file : Bytes) (x : CertObject) (u w : World)
      → x.id ≡ n + k
      → k < 6
      → u.live ≡ six_from n live
      → Kept u w
      → Kept u ((write_pem_cert ssl sys file x >>= report ssl sys file) w).1
  cert_step n k live file x u w e h l kept =
      Kept-trans u w _ kept
        (write_pem_cert-Kept file x w (held n k 6 x.id live w e h (kept.live ∙ l)))

  module _ (n : ℕ) (live : List ℕ) (dir : Bytes) (ca_key srv_key cli_key : Object Key)
      (ca_cert srv_cert cli_cert : CertObject) (a : ca_key.id ≡ n + 0) (b : ca_cert.id ≡ n + 1)
      (c : srv_key.id ≡ n + 2) (d : srv_cert.id ≡ n + 3) (e : cli_key.id ≡ n + 4)
      (f : cli_cert.id ≡ n + 5) where
    write_all-Kept :
        (w : World)
        → w.live ≡ six_from n live
        → Kept w (write_all ssl sys dir ca_key ca_cert srv_key srv_cert cli_key cli_cert w).1
    unfolding write_all
    write_all-Kept w l = cert_step n 5 live _ cli_cert w _ f (omega arith) l (
        key_step n 4 live _ cli_key w _ e (omega arith) l (
          cert_step n 3 live _ srv_cert w _ d (omega arith) l (
            key_step n 2 live _ srv_key w _ c (omega arith) l (
              cert_step n 1 live _ ca_cert w _ b (omega arith) l
                (key_step n 0 live _ ca_key w w a (omega arith) l (Kept-of _ _ refl refl))))))

    pub finish-Freed :
        (w : World)
        → w.live ≡ six_from n live
        → ((finish ssl sys dir ca_key ca_cert srv_key srv_cert cli_key cli_cert w).1.live ≡ live)
          × ((finish ssl sys dir ca_key ca_cert srv_key srv_cert cli_key cli_cert w).1.faults
              ≡ w.faults)
    unfolding finish
    finish-Freed w l =
        let kept = write_all-Kept w l in
        let w0 = (write_all ssl sys dir ca_key ca_cert srv_key srv_cert cli_key cli_cert w).1 in
        let w1 = (free ca_key.id w0).1 in
        let w2 = (free ca_cert.id w1).1 in
        let w3 = (free srv_key.id w2).1 in
        let w4 = (free srv_cert.id w3).1 in
        let w5 = (free cli_key.id w4).1 in
        let f1 =
          free_oldest n (n + 1) 5 live ca_key.id w0 (omega arith) (a ∙ omega arith)
            (kept.live ∙ l) in
        let f2 =
          free_oldest (n + 1) (n + 2) 4 live ca_cert.id w1 (omega arith) (b ∙ omega arith) f1.0 in
        let f3 =
          free_oldest (n + 2) (n + 3) 3 live srv_key.id w2 (omega arith) (c ∙ omega arith) f2.0 in
        let f4 =
          free_oldest (n + 3) (n + 4) 2 live srv_cert.id w3 (omega arith) (d ∙ omega arith) f3.0 in
        let f5 =
          free_oldest (n + 4) (n + 5) 1 live cli_key.id w4 (omega arith) (e ∙ omega arith) f4.0 in
        let f6 =
          free_oldest (n + 5) (n + 6) 0 live cli_cert.id w5 (omega arith) (f ∙ omega arith) f5.0 in
        let w6 = (free cli_cert.id w5).1 in
        let end =
          announce_Kept (write_all ssl sys dir ca_key ca_cert srv_key srv_cert cli_key cli_cert w).0
            (codes "Certificates generated in " ++ (dir ++ codes "\n")) w6 in
        (end.live ∙ f6.0, end.faults ∙ f6.1 ∙ f5.1 ∙ f4.1 ∙ f3.1 ∙ f2.1 ∙ f1.1 ∙ kept.faults)
