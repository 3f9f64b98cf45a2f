-- ===== src/Pycrate.antt =====
-- What sctp_probe uses of pycrate's compiled SBc-AP module: the APER codec of SBC_AP_PDU. `none` is
-- an exception. Where the module cannot be imported (`_PDU is None`) both are always `none`.
use sctp_probe.Prelude.{ℕ, List, Option, Text}
use sctp_probe.Value.{PyVal}

pub record Pycrate : Type 0 where
  -- from_aper and get_val
  pub from_aper : List ℕ → Option PyVal
  -- set_val and to_aper
  pub to_aper : PyVal → Option (List ℕ)
  -- repr of a value that is no text, number, Boolean or None
  pub repr : PyVal → Text
