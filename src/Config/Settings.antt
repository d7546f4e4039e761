-- ===== src/Config/Settings.antt =====
-- src/config/model.rs: the enumerations that settings are made of.
pub data AppParams : Type 0 where
  pass_params drop_params : AppParams

pub data Role : Type 0 where
  tnc app : Role

pub data ConnectPolicy : Type 0 where
  on_demand always : ConnectPolicy
