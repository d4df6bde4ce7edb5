-- ===== src/Net/Zones.antt =====
-- The sensitive addresses and the zones of IPv6 addresses.
use agentless_monitoring.Common.{◌≡◌, ◌≢◌, refl, true, false, [], ◌∷◌, Bytes, bytes_discrete}
use agentless_monitoring.Net.{v6, is_sensitive_service_address, allowed_target}

-- The address fd00:ec2::254 is a sensitive service address when it is written without a zone, and it
-- is not one when it is written with any zone, although it may be monitored with and without.
pub sensitive_zone :
    (zone : Bytes)
    → zone ≢ []
    → let address = v6 0xfd000ec2000000000000000000000254 in
      (is_sensitive_service_address (address []) ≡ true)
      × (is_sensitive_service_address (address zone) ≡ false)
      × (allowed_target (address zone) ≡ true)
unfolding is_sensitive_service_address allowed_target bytes_discrete
sensitive_zone [] h = absurd (h refl)
sensitive_zone (c ∷ cs) h = (refl, refl, refl)
