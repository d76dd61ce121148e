-- ===== src/ErrorCode/Ids.antt =====
-- inc/opx/std_error_ids.h: the subsystems and the generic codes, with their numbers.
use opx_common_utils.Prelude.{ℕ}

pub data ErrorSubsystem : Type 0 where
  null_sub npu board test_sub interface diag com_sub halcom qos route acl cpsnas mgmt mac stg :
      ErrorSubsystem
  mirror sflow cpsapi lacp xstp lldp dot1x l2mac l2cmn ospfv2 ospfv3 bgp rtm policy nas_os pas :
      ErrorSubsystem
  env_tmpctl l3services ipm swupdate datastore port_sec mgmt_intf chm etl ifm issu ndm pm ppm :
      ErrorSubsystem
  sa switch_res_mgr l3_debug openflow afs_utils vrrp infra_common vlt iscsi_opt dcbx udf :
      ErrorSubsystem
  dnv_onboarding dnv_network app_fc mcast app_lfd app_vn bfd infra_afs fefd : ErrorSubsystem

unfoldable pub subsystem_value : ErrorSubsystem → ℕ
subsystem_value null_sub = 0
subsystem_value npu = 1
subsystem_value board = 2
subsystem_value test_sub = 3
subsystem_value interface = 4
subsystem_value diag = 5
subsystem_value com_sub = 6
subsystem_value halcom = 7
subsystem_value qos = 8
subsystem_value route = 9
subsystem_value acl = 10
subsystem_value cpsnas = 11
subsystem_value mgmt = 12
subsystem_value mac = 13
subsystem_value stg = 14
subsystem_value mirror = 15
subsystem_value sflow = 16
subsystem_value cpsapi = 17
subsystem_value lacp = 18
subsystem_value xstp = 19
subsystem_value lldp = 20
subsystem_value dot1x = 21
subsystem_value l2mac = 22
subsystem_value l2cmn = 23
subsystem_value ospfv2 = 24
subsystem_value ospfv3 = 25
subsystem_value bgp = 26
subsystem_value rtm = 27
subsystem_value policy = 28
subsystem_value nas_os = 29
subsystem_value pas = 30
subsystem_value env_tmpctl = 31
subsystem_value l3services = 32
subsystem_value ipm = 33
subsystem_value swupdate = 34
subsystem_value datastore = 35
subsystem_value port_sec = 36
subsystem_value mgmt_intf = 37
subsystem_value chm = 38
subsystem_value etl = 39
subsystem_value ifm = 40
subsystem_value issu = 41
subsystem_value ndm = 42
subsystem_value pm = 43
subsystem_value ppm = 44
subsystem_value sa = 45
subsystem_value switch_res_mgr = 46
subsystem_value l3_debug = 47
subsystem_value openflow = 48
subsystem_value afs_utils = 49
subsystem_value vrrp = 50
subsystem_value infra_common = 51
subsystem_value vlt = 52
subsystem_value iscsi_opt = 53
subsystem_value dcbx = 54
subsystem_value udf = 55
subsystem_value dnv_onboarding = 56
subsystem_value dnv_network = 57
subsystem_value app_fc = 58
subsystem_value mcast = 59
subsystem_value app_lfd = 60
subsystem_value app_vn = 61
subsystem_value bfd = 62
subsystem_value infra_afs = 63
subsystem_value fefd = 64

pub data ErrorKind : Type 0 where
  fail cfg param toobig closed nomem nexist noresource notsupported : ErrorKind

unfoldable pub kind_value : ErrorKind → ℕ
kind_value fail = 1
kind_value cfg = 2
kind_value param = 3
kind_value toobig = 4
kind_value closed = 5
kind_value nomem = 6
kind_value nexist = 7
kind_value noresource = 8
kind_value notsupported = 9
