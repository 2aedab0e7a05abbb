-- ===== src/Network/Announced/Silent.antt =====
-- src/network/mod.rs: what is said of connections is changed neither by the handlers, but for the
-- two of connections, nor by the active mode.
use saved.Base.{◌∙◌, Bool, ap}
use saved.Libp2p.{Libp2p, PeerId, ConnectionId}
use saved.Network.Announced.{heard, Hears}
use saved.Network.Unaffected.{Any, IsUnaffected}
use saved.Network.Unaffected.Modes.{IsModeFree}

module _ ⦃L : Libp2p⦄ (f : PeerId → ConnectionId → Bool) where
  pub Hears-IsUnaffected : IsUnaffected (Hears f) Any
  Hears-IsUnaffected = record {
    logs = λ e s quiet h p c. quiet.1 (heard s.log p c) p c ∙ h p c;
    dials_known = λ q a s k h. h;
    neutral = λ call s k h. h;
    adds = λ now q a s k h. h;
    nats = λ status s h. h;
  }

  pub Hears-IsModeFree : IsModeFree (Hears f)
  Hears-IsModeFree = record {
    same = λ s t h a b p c. ap (λ log. heard log p c) b ∙ h p c;
    asks = λ t s h. h;
  }
