-- ===== src/Examples/Hosts.antt =====
-- A host on which the operations run: a time is written as that many dots, every text is a well
-- formed identifier and every signature is the same.
use nexus_os_ai_workspace.Base.{
  ℕ, zero, suc, String, ◌≡◌, refl, ap, arith, true, some, utf16_length,
}
use nexus_os_ai_workspace.Host.{Host, ReadsBack}

unfoldable pub dots : ℕ → String
dots zero = ""
dots (suc n) = String.◌∷◌ "." (dots n)

abbrev pub dot_host : Host
dot_host = record {
  date_ms = λ s. some (utf16_length s);
  to_iso = dots;
  hmac_hex = λ secret payload. "a1b2";
  is_uuid = λ s. true;
  is_datetime = λ s. true;
}

length-dots : (n : ℕ) → utf16_length (dots n) ≡ n
unfolding dots utf16_length
length-dots zero = refl
length-dots (suc n) = omega (arith, length-dots n)

pub dot_host-ReadsBack : ReadsBack dot_host
dot_host-ReadsBack t h = ap some (length-dots t)
