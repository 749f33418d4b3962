-- ===== src/Wire/Total.antt =====
-- wire/: the end of the loops that read options.
use dhcp_golib.Base.{◌≢◌, stuck}
use dhcp_golib.Wire.Option.{Options}
use dhcp_golib.Wire.UserClass.{user_class, user_class-ne-stuck}
use dhcp_golib.Wire.Vendor.{vendor_identifying, vendor_identifying-ne-stuck}
use dhcp_golib.Wire.Routes.{classless_routes}
use dhcp_golib.Wire.Routes.Classless.{classless_routes-ne-stuck}

-- The loops of `UserClass`, `VendorIdentifying` and `ClasslessRoutes` end on every set of options: the
-- readers return a value or an error and never run out of fuel.
pub option_readers_end :
    (o : Options)
    → (user_class o ≢ stuck) × (vendor_identifying o ≢ stuck) × (classless_routes o ≢ stuck)
option_readers_end o =
    (user_class-ne-stuck o, vendor_identifying-ne-stuck o, classless_routes-ne-stuck o)
