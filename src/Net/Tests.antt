-- ===== src/Net/Tests.antt =====
-- The network policy on concrete addresses.
use agentless_monitoring.Common.{◌≡◌, refl, true, false, [], codes}
use agentless_monitoring.Net.{v4, v6, is_sensitive_service_address, allowed_target}
use agentless_monitoring.Net.Zones.{sensitive_zone}

metadata_service : is_sensitive_service_address (v4 0xa9fea9fe) ≡ true
unfolding is_sensitive_service_address
metadata_service = refl

sensitive_zone_example :
    (is_sensitive_service_address (v6 0xfd000ec2000000000000000000000254 []) ≡ true)
    × (is_sensitive_service_address (v6 0xfd000ec2000000000000000000000254 (codes "eth0")) ≡ false)
    × (allowed_target (v6 0xfd000ec2000000000000000000000254 (codes "eth0")) ≡ true)
sensitive_zone_example = sensitive_zone (codes "eth0") (λ e. cc)
