-- ===== src/Services/Wifi/Reason.antt =====
-- The reasons for which a station is disconnected, in
-- components/blusys/src/services/connectivity/wifi.c.

use blusys.Base.{ℕ}

-- The enumerators of the SDK that the source names; `other_reason` stands for the rest.
pub data WifiReason : Type 0 where
  auth_expire auth_fail auth_leave four_way_handshake_timeout handshake_timeout : WifiReason
  ieee802_1x_auth_failed assoc_not_authed ie_invalid mic_failure group_key_update_timeout :
      WifiReason
  ie_in_4way_differs group_cipher_invalid pairwise_cipher_invalid akmp_invalid : WifiReason
  unsupp_rsn_ie_version invalid_rsn_ie_cap cipher_suite_rejected bad_cipher_or_akm : WifiReason
  invalid_pmkid invalid_mde invalid_fte no_ap_found no_ap_found_in_rssi_threshold : WifiReason
  no_ap_found_in_authmode_threshold no_ap_found_w_compatible_security assoc_fail : WifiReason
  assoc_expire assoc_toomany disassoc_pwrcap_bad disassoc_supchan_bad : WifiReason
  assoc_comeback_time_too_long beacon_timeout connection_fail not_authed not_assoced : WifiReason
  assoc_leave timeout peer_initiated ap_initiated ap_tsf_reset roaming sa_query_timeout : WifiReason
  transmission_link_establish_failed sta_leaving : WifiReason
  other_reason : ℕ → WifiReason

-- `blusys_wifi_disconnect_reason_t`
pub data DisconnectReason : Type 0 where
  unknown user_requested auth_failed no_ap_found_reason assoc_failed connection_lost :
      DisconnectReason

unfoldable pub map_disconnect_reason : WifiReason → DisconnectReason
map_disconnect_reason auth_expire = auth_failed
map_disconnect_reason auth_fail = auth_failed
map_disconnect_reason auth_leave = auth_failed
map_disconnect_reason four_way_handshake_timeout = auth_failed
map_disconnect_reason handshake_timeout = auth_failed
map_disconnect_reason ieee802_1x_auth_failed = auth_failed
map_disconnect_reason assoc_not_authed = auth_failed
map_disconnect_reason ie_invalid = auth_failed
map_disconnect_reason mic_failure = auth_failed
map_disconnect_reason group_key_update_timeout = auth_failed
map_disconnect_reason ie_in_4way_differs = auth_failed
map_disconnect_reason group_cipher_invalid = auth_failed
map_disconnect_reason pairwise_cipher_invalid = auth_failed
map_disconnect_reason akmp_invalid = auth_failed
map_disconnect_reason unsupp_rsn_ie_version = auth_failed
map_disconnect_reason invalid_rsn_ie_cap = auth_failed
map_disconnect_reason cipher_suite_rejected = auth_failed
map_disconnect_reason bad_cipher_or_akm = auth_failed
map_disconnect_reason invalid_pmkid = auth_failed
map_disconnect_reason invalid_mde = auth_failed
map_disconnect_reason invalid_fte = auth_failed
map_disconnect_reason no_ap_found = no_ap_found_reason
map_disconnect_reason no_ap_found_in_rssi_threshold = no_ap_found_reason
map_disconnect_reason no_ap_found_in_authmode_threshold = no_ap_found_reason
map_disconnect_reason no_ap_found_w_compatible_security = no_ap_found_reason
map_disconnect_reason assoc_fail = assoc_failed
map_disconnect_reason assoc_expire = assoc_failed
map_disconnect_reason assoc_toomany = assoc_failed
map_disconnect_reason disassoc_pwrcap_bad = assoc_failed
map_disconnect_reason disassoc_supchan_bad = assoc_failed
map_disconnect_reason assoc_comeback_time_too_long = assoc_failed
map_disconnect_reason beacon_timeout = connection_lost
map_disconnect_reason connection_fail = connection_lost
map_disconnect_reason not_authed = connection_lost
map_disconnect_reason not_assoced = connection_lost
map_disconnect_reason assoc_leave = connection_lost
map_disconnect_reason timeout = connection_lost
map_disconnect_reason peer_initiated = connection_lost
map_disconnect_reason ap_initiated = connection_lost
map_disconnect_reason ap_tsf_reset = connection_lost
map_disconnect_reason roaming = connection_lost
map_disconnect_reason sa_query_timeout = connection_lost
map_disconnect_reason transmission_link_establish_failed = connection_lost
map_disconnect_reason sta_leaving = connection_lost
map_disconnect_reason (other_reason n) = unknown
